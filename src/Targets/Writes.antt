-- ===== src/Targets/Writes.antt =====
-- Writes through a pointer to a target (kvtransfer/src/client.cpp) that leave its destination alone.
use llumnix_kv.Base.{
  ℕ, ◌<◌, ◌≡◌, refl, sym, ap, ◌∙◌, false, List, [], ◌∷◌, Option, some, inl, inr, ◌==◌,
  if◌then◌else◌, Bool-cases, All, subst,
}
use llumnix_kv.Types.{Bytes}
use llumnix_kv.Targets.Map.{TargetMap, peek}
use llumnix_kv.Targets.MapLaws.{same_key}
use llumnix_kv.Targets.Manager.{Target, TargetMgr, modify}
use llumnix_kv.Targets.Spec.{place_of}
use llumnix_kv.Targets.Nodes.{IsDistinct}
use llumnix_kv.Targets.Refine.{IsConsistent}
use llumnix_kv.Targets.Held.{All-modify}

-- A write that leaves the list's shape alone.
pub record Writes (p : ℕ) (f : Target → Target) (m m' : TargetMgr) : Type 0 where
  pub targets : m'.targets ≡ modify p f m.targets
  pub map : m'.target_map ≡ m.target_map
  pub addresses : m'.fresh ≡ m.fresh
  pub place : (t : Target) → (f t).place ≡ t.place
  pub instance_ : (t : Target) → (f t).dstid ≡ t.dstid
  pub worker : (t : Target) → (f t).dstworkerid ≡ t.dstworkerid

place_of-modify :
    (i : Bytes) (w p : ℕ) (f : Target → Target) (ts : List Target)
    → ((t : Target) → (f t).place ≡ t.place)
    → ((t : Target) → (f t).dstid ≡ t.dstid)
    → ((t : Target) → (f t).dstworkerid ≡ t.dstworkerid)
    → place_of i w (modify p f ts) ≡ place_of i w ts
unfolding modify
place_of-modify i w p f [] hp hi hw = refl
place_of-modify i w p f (t ∷ ts) hp hi hw =
    let ih = place_of-modify i w p f ts hp hi hw in
    elim (Bool-cases (t.place == p)) [
      | inl b ↦ rw b ((λ k. if same_key i w (hi t k) (hw t k) then some (hp t k) else ih k))
      | inr b ↦
          rw b (
            ap (λ (o : Option ℕ). if same_key i w t.dstid t.dstworkerid then some t.place else o)
              ih)
    ]

IsDistinct-modify :
    (p : ℕ) (f : Target → Target) (ts : List Target)
    → ((t : Target) → (f t).place ≡ t.place)
    → ((t : Target) → (f t).dstid ≡ t.dstid)
    → ((t : Target) → (f t).dstworkerid ≡ t.dstworkerid)
    → IsDistinct ts
    → IsDistinct (modify p f ts)
unfolding modify
IsDistinct-modify p f [] hp hi hw d = tt
IsDistinct-modify p f (t ∷ ts) hp hi hw d =
    let free = place_of-modify t.dstid t.dstworkerid p f ts hp hi hw ∙ d.0 in
    let apart : All (λ u. (u.place == t.place) ≡ false) (modify p f ts) =
      All-modify (λ u. (u.place == t.place) ≡ false) (λ u. (u.place == t.place) ≡ false) p f ts
        (λ u b h. ap (λ (n : ℕ). n == t.place) (hp u) ∙ h) (λ u b h. h) d.1 in
    let rest = IsDistinct-modify p f ts hp hi hw d.2 in
    elim (Bool-cases (t.place == p)) [
      | inl b ↦ rw b (
        (λ k. place_of (hi t k) (hw t k) (modify p f ts)) ∙ free,
        subst (λ (n : ℕ). All (λ u. (u.place == n) ≡ false) (modify p f ts)) (sym (hp t)) apart,
        rest,
      )
      | inr b ↦ rw b (free, apart, rest)
    ]

pub write-IsConsistent :
    (p : ℕ) (f : Target → Target) (m m' : TargetMgr)
    → IsConsistent m
    → Writes p f m m'
    → IsConsistent m'
write-IsConsistent p f m m' c w = record {
  mapped = λ i x.
      ap (λ (map : TargetMap). peek map i x) w.map
      ∙ c.mapped i x
      ∙ sym (place_of-modify i x p f m.targets w.place w.instance_ w.worker)
      ∙ ap (place_of i x) (sym w.targets);
  distinct =
      subst IsDistinct (sym w.targets)
        (IsDistinct-modify p f m.targets w.place w.instance_ w.worker c.distinct);
  allocated =
      subst (λ (n : ℕ). All (λ t. t.place < n) m'.targets) (sym w.addresses)
        (subst (All (λ t. t.place < m.fresh)) (sym w.targets) (
          All-modify (λ t. t.place < m.fresh) (λ t. t.place < m.fresh) p f m.targets
            (λ t b h. subst (λ (n : ℕ). n < m.fresh) (sym (w.place t)) h) (λ t b h. h)
            c.allocated));
}
