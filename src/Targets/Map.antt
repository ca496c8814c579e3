-- ===== src/Targets/Map.antt =====
-- kvtransfer/src/client.cpp: `target_map_`, from an instance and a worker to a node of the list `targets_`.
-- A node is named by its address.
use llumnix_kv.Base.{
  ℕ, ◌+◌, ◌-◌, Bool, true, false, not, ◌&&◌, List, [], ◌∷◌, ◌++◌, length, set, take, replicate,
  Option, none, some, ltb, leb, ◌==◌, u32, if◌then◌else◌, Result, Error, ok, err, ◌>>=◌, ◌>>◌,
  assert, at,
}
use llumnix_kv.Env.{Env}
use llumnix_kv.Types.{Bytes}

-- `==` on `std::string`.
abbrev pub bytes_eq : Bytes → Bytes → Bool
bytes_eq [] [] = true
bytes_eq (x ∷ xs) (y ∷ ys) = x == y && bytes_eq xs ys
bytes_eq _ _ = false

abbrev pub Slots : Type 0
Slots = List (Option ℕ)

-- `std::unordered_map<InstanceId, std::vector<std::optional<std::list<Target>::iterator>>>`
abbrev pub TargetMap : Type 0
TargetMap = List (Bytes × Slots)

unfoldable pub find : Bytes → TargetMap → Option Slots
find i [] = none
find i ((j, v) ∷ m) = if bytes_eq i j then some v else find i m

-- Replaces what stands at `i`; a new key goes last.
unfoldable pub put : Bytes → Slots → TargetMap → TargetMap
put i v [] = (i, v) ∷ []
put i v ((j, w) ∷ m) = let rest = put i v m in if bytes_eq i j then (j, v) ∷ m else (j, w) ∷ rest

unfoldable pub erase : Bytes → TargetMap → TargetMap
erase i [] = []
erase i ((j, v) ∷ m) = let rest = erase i m in if bytes_eq i j then rest else (j, v) ∷ rest

-- `target_map_[inst_id]`: a missing key stands for an empty vector.
abbrev pub slots_of : Option Slots → Slots
slots_of none = []
slots_of (some v) = v

-- The node at `w`, if there is one.
unfoldable pub slot : Slots → ℕ → Option ℕ
slot [] w = none
slot (o ∷ v) ℕ.zero = o
slot (o ∷ v) (ℕ.suc w) = slot v w

-- `peek`; `none` is `end()`.
unfoldable pub peek : TargetMap → Bytes → ℕ → Option ℕ
peek m inst_id worker_id = slot (slots_of (find inst_id m)) worker_id

abbrev pub has_value : Option ℕ → Bool
has_value none = false
has_value (some p) = true

-- `v[w] = o`
unfoldable pub write : Slots → ℕ → Option ℕ → Result Slots
write v w o = if ltb w (length v) then ok (set v w o) else err Error.undefined

-- `targets.resize(worker_id + 1)`, in 32 bits.
unfoldable pub grow : Slots → ℕ → Slots
grow v worker_id =
    let n = u32 (worker_id + 1) in
    if leb (length v) worker_id then take n v ++ replicate (n - length v) none else v

-- What `create` does with the map.
unfoldable pub enter : Env → TargetMap → Bytes → ℕ → ℕ → Result TargetMap
enter env m inst_id worker_id place = do
  let v = grow (slots_of (find inst_id m)) worker_id
  old ← if env.asserts then at v worker_id else ok none
  assert env.asserts (not (has_value old))
  v' ← write v worker_id (some place)
  ok (put inst_id v' m)

-- The test after `targetiters[dwid] = std::nullopt`.
unfoldable pub any_value : Slots → Bool
any_value [] = false
any_value (none ∷ v) = any_value v
any_value (some p ∷ v) = true

-- `try_pop_map`, having looked the instance up.
unfoldable pub pop_found : Env → TargetMap → Bytes → ℕ → Option Slots → Result (TargetMap × ℕ)
pop_found env m dstid dwid none = ok (m, 0)
pop_found env m dstid dwid (some v) = if leb (length v) dwid then ok (m, 0) else do
  assert env.asserts (has_value (slot v dwid))
  let v' = set v dwid none
  if any_value v' then ok (put dstid v' m, 1) else ok (erase dstid m, 2)

unfoldable pub try_pop_map : Env → TargetMap → Bytes → ℕ → Result (TargetMap × ℕ)
try_pop_map env m dstid dwid = pop_found env m dstid dwid (find dstid m)
