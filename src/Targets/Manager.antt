-- ===== src/Targets/Manager.antt =====
-- kvtransfer/src/client.cpp: `TargetMgr`. A pointer to a target and an iterator to its list node are
-- the same address; `fresh` is the next one, and a read through an address that no node has is undefined.
use llumnix_kv.Base.{
  ℕ, zero, suc, ◌+◌, List, [], ◌∷◌, length, Option, none, some, ltb, ◌==◌, if◌then◌else◌, Result,
  Error, ok, err, ◌>>=◌,
}
use llumnix_kv.Env.{Env}
use llumnix_kv.Types.{Bytes, WorkerInfo, RequestInfo}
use llumnix_kv.Targets.Map.{TargetMap, peek, enter, try_pop_map}

-- `Target`, with what its sender was created for.
pub record Target : Type 0 where
  pub place : ℕ
  pub dstid : Bytes
  pub dstworkerid : ℕ
  pub worker_info : Option WorkerInfo
  pub inflycnt : ℕ
  pub thread_hint : ℕ

pub record TargetMgr : Type 0 where
  pub targets : List Target
  pub target_map : TargetMap
  pub thread_hint : ℕ
  pub fresh : ℕ

-- A node found behind `t`.
abbrev pub behind : Target → Option (Target × List Target) → Option (Target × List Target)
behind t none = none
behind t (some (u, us)) = some (u, t ∷ us)

-- A node taken out of the list.
unfoldable pub extract : ℕ → List Target → Option (Target × List Target)
extract place [] = none
extract place (t ∷ ts) =
    let rest = extract place ts in if t.place == place then some (t, ts) else behind t rest

-- `splice` to the front, with the pointer that `get` returns.
unfoldable pub move_front :
    TargetMgr → ℕ → Option (Target × List Target) → Result (TargetMgr × Option ℕ)
move_front m place none = err Error.undefined
move_front m place (some (t, ts)) = ok (record m { targets = t ∷ ts }, some place)

-- What follows the call of `peek` in `get`.
unfoldable pub get_found : TargetMgr → Option ℕ → Result (TargetMgr × Option ℕ)
get_found m none = ok (m, none)
get_found m (some place) = move_front m place (extract place m.targets)

unfoldable pub get : TargetMgr → Bytes → ℕ → Result (TargetMgr × Option ℕ)
get m inst_id worker_id = get_found m (peek m.target_map inst_id worker_id)

abbrev pub new_target : TargetMgr → Bytes → ℕ → Option WorkerInfo → Target
new_target m inst_id worker_id info = record {
  place = m.fresh;
  dstid = inst_id;
  dstworkerid = worker_id;
  worker_info = info;
  inflycnt = 0;
  thread_hint = 0;
}

unfoldable pub create : Env → TargetMgr → Bytes → ℕ → Option WorkerInfo → Result (TargetMgr × ℕ)
create env m inst_id worker_id info = do
  map ← enter env m.target_map inst_id worker_id m.fresh
  ok (
    record m {
      targets = new_target m inst_id worker_id info ∷ m.targets;
      target_map = map;
      fresh = m.fresh + 1;
    },
    m.fresh,
  )

-- What follows the call of `get` in `create_or_get`.
unfoldable pub or_create : Env → RequestInfo → TargetMgr × Option ℕ → Result (TargetMgr × ℕ)
or_create env req (m, some place) = ok (m, place)
or_create env req (m, none) = create env m req.dst_inst_id req.dst_worker_id req.dst_worker_info

unfoldable pub create_or_get : Env → TargetMgr → RequestInfo → Result (TargetMgr × ℕ)
create_or_get env m req = get m req.dst_inst_id req.dst_worker_id >>= or_create env req

abbrev pub before_last : Target → Option (List Target × Target) → Option (List Target × Target)
before_last t none = some ([], t)
before_last t (some (us, u)) = some (t ∷ us, u)

-- `back()` and the list without it.
unfoldable pub unsnoc : List Target → Option (List Target × Target)
unsnoc [] = none
unsnoc (t ∷ ts) = before_last t (unsnoc ts)

-- A round of `shrink`; `none` where the loop ends.
unfoldable pub shrink_back :
    Env → TargetMgr → Option (List Target × Target) → Result (Option TargetMgr)
shrink_back env m none = err Error.undefined
shrink_back env m (some (ts, t)) = if ltb 0 t.inflycnt then ok none else do
  popped ← try_pop_map env m.target_map t.dstid t.dstworkerid
  ok (some (record m { targets = ts; target_map = popped.0 }))

unfoldable pub shrink_loop : ℕ → Env → ℕ → TargetMgr → Result TargetMgr
shrink_loop zero env limit m = err Error.diverges
shrink_loop (suc fuel) env limit m =
    let round = shrink_back env m (unsnoc m.targets) >>= λ r. elim r [
      | none ↦ ok m
      | some m' ↦ shrink_loop fuel env limit m'
    ] in
    if ltb limit (length m.targets) then round else ok m

-- `try_shrink` and `shrink`. Each round takes a target off the list.
unfoldable pub try_shrink : Env → ℕ → TargetMgr → Result TargetMgr
try_shrink env limit m = shrink_loop (suc (length m.targets)) env limit m

-- What a pointer to a target points to.
unfoldable pub node : ℕ → List Target → Option Target
node place [] = none
node place (t ∷ ts) = if t.place == place then some t else node place ts

-- A write through a pointer.
unfoldable pub modify : ℕ → (Target → Target) → List Target → List Target
modify place f [] = []
modify place f (t ∷ ts) =
    let rest = modify place f ts in if t.place == place then f t ∷ rest else t ∷ rest
