-- ===== src/Targets/Spec.antt =====
-- What `TargetMgr` (kvtransfer/src/client.cpp) is for: a cache of targets, the latest used first, in which
-- an idle target goes only when it is the last and the cache is over its size. This is a description
-- of its own, on the list alone.
use llumnix_kv.Base.{
  ℕ, ◌-◌, Bool, not, ◌&&◌, List, [], ◌∷◌, Option, none, some, ltb, ◌==◌, if◌then◌else◌,
}
use llumnix_kv.Types.{Bytes}
use llumnix_kv.Targets.MapLaws.{same_key}
use llumnix_kv.Targets.Manager.{Target, behind}

-- The first target for a destination, taken out.
abbrev pub take_key : Bytes → ℕ → List Target → Option (Target × List Target)
take_key i w [] = none
take_key i w (t ∷ ts) =
    let rest = take_key i w ts in
    if same_key i w t.dstid t.dstworkerid then some (t, ts) else behind t rest

abbrev pub first : Target → List Target → Option (Target × List Target) → List Target
first new ts none = new ∷ ts
first new ts (some (t, rest)) = t ∷ rest

-- The destination is used: its target, or a new one, comes first.
unfoldable pub touch : Bytes → ℕ → Target → List Target → List Target
touch i w new ts = first new ts (take_key i w ts)

abbrev pub idle : Target → Bool
idle t = not (ltb 0 t.inflycnt)

-- `t` before the targets that are kept behind it.
abbrev pub keep : ℕ → Target → List Target → List Target
keep limit t [] = if limit == 0 && idle t then [] else t ∷ []
keep limit t (u ∷ us) = t ∷ u ∷ us

abbrev pub evict : ℕ → List Target → List Target
evict limit [] = []
evict limit (t ∷ ts) = keep limit t (evict (limit - 1) ts)

-- Where a destination's target stands.
abbrev pub place_of : Bytes → ℕ → List Target → Option ℕ
place_of i w [] = none
place_of i w (t ∷ ts) = if same_key i w t.dstid t.dstworkerid then some t.place else place_of i w ts
