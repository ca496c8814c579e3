-- ===== src/Targets/Shrink.antt =====
-- `try_shrink` (kvtransfer/src/client.cpp) evicts the idle targets at the end.
use llumnix_kv.Base.{
  ℕ, zero, suc, ◌<◌, ◌≡◌, refl, sym, ap, ◌∙◌, ltb→lt, List, [], ◌∷◌, ◌++◌, length, length-append,
  inl, inr, ltb, Bool-cases, All, ok, ◌>>=◌, subst, arith,
}
use llumnix_kv.Env.{Env}
use llumnix_kv.Targets.MapLaws.{Popped, pop_total}
use llumnix_kv.Targets.Manager.{Target, TargetMgr, unsnoc, shrink_back, shrink_loop, try_shrink}
use llumnix_kv.Targets.Spec.{evict, place_of}
use llumnix_kv.Targets.Nodes.{IsDistinct}
use llumnix_kv.Targets.Evict.{
  unsnoc-append, last_cases, All-last, IsDistinct-front, place_of-last, place_of-front, evict-busy,
  evict-idle, evict-small,
}
use llumnix_kv.Targets.Refine.{IsConsistent}

pub record Shrunk (limit : ℕ) (m m' : TargetMgr) : Type 0 where
  pub refines : m'.targets ≡ evict limit m.targets
  pub consistent : IsConsistent m'
  pub hints : m'.thread_hint ≡ m.thread_hint
  pub addresses : m'.fresh ≡ m.fresh

-- A consistent manager whose list ends in `t`.
record Ended (m : TargetMgr) (ts : List Target) (t : Target) : Type 0 where
  ends : m.targets ≡ ts ++ t ∷ []
  consistent : IsConsistent m

Popped-IsConsistent :
    (env : Env) (m : TargetMgr) (ts : List Target) (t : Target)
    → Ended m ts t
    → (p : Popped env m.target_map t.dstid t.dstworkerid)
    → IsConsistent (record m { targets = ts; target_map = p.result.0 })
Popped-IsConsistent env m ts t e p =
    let d : IsDistinct (ts ++ t ∷ []) = subst IsDistinct e.ends e.consistent.distinct in
    record {
      mapped =
          λ i w. p.peeks i w ∙ rw (e.consistent.mapped i w, e.ends) (place_of-front i w ts t d);
      distinct = IsDistinct-front ts t d;
      allocated =
          (All-last (λ u. u.place < m.fresh) ts t
            (subst (All (λ u. u.place < m.fresh)) e.ends e.consistent.allocated)).0;
    }

shrink_loop_total :
    (fuel : ℕ) (env : Env) (limit : ℕ) (m : TargetMgr)
    → IsConsistent m
    → length m.targets < fuel
    → (m' : TargetMgr) × (shrink_loop fuel env limit m ≡ ok m') × Shrunk limit m m'
unfolding shrink_loop shrink_back ◌>>=◌
shrink_loop_total zero env limit m c h = absurd (omega arith)
shrink_loop_total (suc fuel) env limit m c h = elim (Bool-cases (ltb limit (length m.targets))) [
  | inr b ↦ (
    m,
    rw b refl,
    record {
      refines = sym (evict-small limit m.targets (ground arith));
      consistent = c;
      hints = refl;
      addresses = refl;
    },
  )
  | inl b ↦ elim (last_cases m.targets) [
    | inl e ↦ absurd (let n = ap length e in ground arith)
    | inr (ts, t, e) ↦ elim (Bool-cases (ltb 0 t.inflycnt)) [
      | inl busy ↦ (
        m,
        rw (b, ap unsnoc e ∙ unsnoc-append ts t, busy) refl,
        record {
          refines = e ∙ sym (evict-busy limit ts t busy) ∙ ap (evict limit) (sym e);
          consistent = c;
          hints = refl;
          addresses = refl;
        },
      )
      | inr free ↦
          let d : IsDistinct (ts ++ t ∷ []) = subst IsDistinct e c.distinct in
          let p = pop_total env m.target_map t.dstid t.dstworkerid t.place (
            c.mapped t.dstid t.dstworkerid
            ∙ ap (place_of t.dstid t.dstworkerid) e
            ∙ place_of-last ts t d) in
          let n = ap length e in
          let (m', runs, s) =
            shrink_loop_total fuel env limit (record m { targets = ts; target_map = p.result.0 })
              (Popped-IsConsistent env m ts t (record { ends = e; consistent = c }) p)
              (omega (arith, n, length-append ts (t ∷ []))) in
          (
            m',
            rw (b, ap unsnoc e ∙ unsnoc-append ts t, free, p.runs) runs,
            record {
              refines =
                  s.refines
                  ∙ sym (
                      evict-idle limit ts t free
                        (omega (arith, n, ltb→lt _ _ b, length-append ts (t ∷ []))))
                  ∙ ap (evict limit) (sym e);
              consistent = s.consistent;
              hints = s.hints;
              addresses = s.addresses;
            },
          )
    ]
  ]
]

-- In a consistent manager, `try_shrink` with a limit returns, and the list of targets is what the
-- description leaves: targets go from the back, while there are more than the limit, up to the
-- first that has a batch in flight. The manager is consistent again: the map has no entry for a
-- target that went.
pub try_shrink-refines :
    (env : Env) (limit : ℕ) (m : TargetMgr)
    → IsConsistent m
    → (m' : TargetMgr) × (try_shrink env limit m ≡ ok m') × Shrunk limit m m'
unfolding try_shrink
try_shrink-refines env limit m c =
    shrink_loop_total (suc (length m.targets)) env limit m c (omega arith)
