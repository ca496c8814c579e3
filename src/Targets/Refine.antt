-- ===== src/Targets/Refine.antt =====
-- `TargetMgr` (kvtransfer/src/client.cpp) is the cache of Targets/Spec: `create_or_get` touches a
-- destination, and `try_shrink` evicts.
use llumnix_kv.Base.{
  ℕ, ◌+◌, ◌^◌, ◌<◌, ◌≡◌, refl, sym, ◌∙◌, false, List, [], ◌∷◌, none, some, inl, inr, ◌==◌,
  Bool-cases, Option-cases, All, ok, ◌>>=◌, arith,
}
use llumnix_kv.Env.{Env}
use llumnix_kv.Types.{Bytes, RequestInfo}
use llumnix_kv.Targets.Map.{peek}
use llumnix_kv.Targets.MapLaws.{same_key, Entered, enter_total}
use llumnix_kv.Targets.Manager.{
  Target, TargetMgr, move_front, get_found, get, new_target, create, or_create, create_or_get,
}
use llumnix_kv.Targets.Spec.{take_key, touch, place_of}
use llumnix_kv.Targets.Nodes.{IsDistinct, same_key_refl, All-extract, extracted}

-- The map names the node of each target, and nothing else.
pub record IsConsistent (m : TargetMgr) : Type 0 where
  pub mapped : (i : Bytes) (w : ℕ) → peek m.target_map i w ≡ place_of i w m.targets
  pub distinct : IsDistinct m.targets
  pub allocated : All (λ t. t.place < m.fresh) m.targets

-- A run of `create_or_get` that gives the target first in line.
pub record Touched (env : Env) (m : TargetMgr) (req : RequestInfo) : Type 0 where
  pub mgr : TargetMgr
  pub place : ℕ
  pub runs : create_or_get env m req ≡ ok (mgr, place)
  pub refines :
      mgr.targets
      ≡ touch req.dst_inst_id req.dst_worker_id
          (new_target m req.dst_inst_id req.dst_worker_id req.dst_worker_info)
          m.targets
  pub found : place_of req.dst_inst_id req.dst_worker_id mgr.targets ≡ some place
  pub consistent : IsConsistent mgr

take_key-none :
    (i : Bytes) (w : ℕ) (ts : List Target) → place_of i w ts ≡ none → take_key i w ts ≡ none
take_key-none i w [] h = refl
take_key-none i w (t ∷ ts) h = elim (Bool-cases (same_key i w t.dstid t.dstworkerid)) [
  | inl b ↦ let e : some t.place ≡ none = rw b at h in absurd (cc)
  | inr b ↦ rw (b, take_key-none i w ts (rw b at h)) refl
]

below_fresh :
    (n : ℕ) (ts : List Target) → All (λ t. t.place < n) ts → All (λ t. (t.place == n) ≡ false) ts
below_fresh n [] a = tt
below_fresh n (t ∷ ts) a = ((let h = a.0 in ground arith), below_fresh n ts a.1)

below_next : (n : ℕ) (ts : List Target) → All (λ t. t.place < n) ts → All (λ t. t.place < n + 1) ts
below_next n [] a = tt
below_next n (t ∷ ts) a = (omega (arith, a.0), below_next n ts a.1)

touch_found :
    (env : Env) (m : TargetMgr) (req : RequestInfo) (p : ℕ)
    → IsConsistent m
    → place_of req.dst_inst_id req.dst_worker_id m.targets ≡ some p
    → Touched env m req
unfolding create_or_get get get_found move_front or_create touch ◌>>=◌
touch_found env m req p c h =
    let x = extracted p req.dst_inst_id req.dst_worker_id m.targets c.distinct h in
    record {
      mgr = record m { targets = x.target ∷ x.rest };
      place = p;
      runs = rw (c.mapped req.dst_inst_id req.dst_worker_id ∙ h, x.by_place) refl;
      refines = rw x.by_key refl;
      found = x.lookups req.dst_inst_id req.dst_worker_id ∙ h;
      consistent = record {
        mapped = λ i w. c.mapped i w ∙ sym (x.lookups i w);
        distinct = x.distinct;
        allocated = All-extract (λ t. t.place < m.fresh) p m.targets x.by_place c.allocated;
      };
    }

touch_new :
    (env : Env) (m : TargetMgr) (req : RequestInfo)
    → IsConsistent m
    → peek m.target_map req.dst_inst_id req.dst_worker_id ≡ none
    → Entered env m.target_map req.dst_inst_id req.dst_worker_id m.fresh
    → Touched env m req
unfolding create_or_get get get_found or_create create touch ◌>>=◌
touch_new env m req c free x =
    let h : place_of req.dst_inst_id req.dst_worker_id m.targets ≡ none =
      sym (c.mapped req.dst_inst_id req.dst_worker_id) ∙ free in
    record {
      mgr = record m {
        targets = new_target m req.dst_inst_id req.dst_worker_id req.dst_worker_info ∷ m.targets;
        target_map = x.map;
        fresh = m.fresh + 1;
      };
      place = m.fresh;
      runs = rw (free, x.runs) refl;
      refines = rw (take_key-none req.dst_inst_id req.dst_worker_id m.targets h) refl;
      found = rw (same_key_refl req.dst_inst_id req.dst_worker_id) refl;
      consistent = record {
        mapped = λ i w. x.peeks i w ∙ rw (c.mapped i w) refl;
        distinct = (h, below_fresh m.fresh m.targets c.allocated, c.distinct);
        allocated = (omega arith, below_next m.fresh m.targets c.allocated);
      };
    }

-- In a consistent manager, for a worker id whose successor fits in 32 bits, `create_or_get`
-- returns, and does to the list of targets what the description does: the target of the request's
-- destination, or a new one where there is none, comes first and the others keep their order. The
-- pointer it returns is that target's, and the manager is consistent again: the map names exactly
-- the target of each destination.
pub create_or_get-refines :
    (env : Env) (m : TargetMgr) (req : RequestInfo)
    → IsConsistent m
    → req.dst_worker_id + 1 < 2 ^ 32
    → Touched env m req
create_or_get-refines env m req c small =
    elim (Option-cases (place_of req.dst_inst_id req.dst_worker_id m.targets)) [
      | inl h ↦
          let free : peek m.target_map req.dst_inst_id req.dst_worker_id ≡ none =
            c.mapped req.dst_inst_id req.dst_worker_id ∙ h in
          touch_new env m req c free
            (enter_total env m.target_map req.dst_inst_id req.dst_worker_id m.fresh small free)
      | inr (p, h) ↦ touch_found env m req p c h
    ]
