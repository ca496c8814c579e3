-- ===== src/Targets/Evict.antt =====
-- The last of the targets (kvtransfer/src/client.cpp), and what evicting them means.
use llumnix_kv.Base.{
  ℕ, zero, suc, ◌-◌, ◌≤◌, ◌≡◌, refl, ap, true, false, List, [], ◌∷◌, ◌++◌, length, none, some, inl,
  inr, ltb, ◌==◌, if◌then◌else◌, Bool-cases, All, ◌⊎◌, arith,
}
use llumnix_kv.Types.{Bytes}
use llumnix_kv.Targets.MapLaws.{same_key, bytes_eq_iff}
use llumnix_kv.Targets.Manager.{Target, unsnoc}
use llumnix_kv.Targets.Spec.{keep, evict, place_of}
use llumnix_kv.Targets.Nodes.{key_of, IsDistinct, same_key_iff, same_key_refl}

pub unsnoc-append : (ts : List Target) (t : Target) → unsnoc (ts ++ t ∷ []) ≡ some (ts, t)
unfolding unsnoc
unsnoc-append [] t = refl
unsnoc-append (u ∷ ts) t = rw (unsnoc-append ts t) refl

pub last_cases :
    (ts : List Target) → (ts ≡ []) ⊎ ((us : List Target) × (u : Target) × (ts ≡ us ++ u ∷ []))
last_cases [] = inl refl
last_cases (t ∷ ts) = elim (last_cases ts) [
  | inl e ↦ inr ([], t, ap (◌∷◌ t) e)
  | inr (us, u, e) ↦ inr (t ∷ us, u, ap (◌∷◌ t) e)
]

absent_last :
    (j : Bytes) (x : ℕ) (ts : List Target) (t : Target)
    → place_of j x (ts ++ t ∷ []) ≡ none
    → (same_key j x t.dstid t.dstworkerid ≡ false) × (place_of j x ts ≡ none)
absent_last j x [] t h = elim (Bool-cases (same_key j x t.dstid t.dstworkerid)) [
  | inl b ↦ let e : some t.place ≡ none = rw b at h in absurd (cc)
  | inr b ↦ (b, refl)
]
absent_last j x (u ∷ ts) t h = elim (Bool-cases (same_key j x u.dstid u.dstworkerid)) [
  | inl b ↦ let e : some u.place ≡ none = rw b at h in absurd (cc)
  | inr b ↦ let r = absent_last j x ts t (rw b at h) in (r.0, rw b r.1)
]

All-front {ℓ} :
    (P : Target → Type ℓ) (ts : List Target) (t : Target) → All P (ts ++ t ∷ []) → All P ts
All-front P [] t a = tt
All-front P (u ∷ ts) t a = (a.0, All-front P ts t a.1)

pub All-last {ℓ} :
    (P : Target → Type ℓ) (ts : List Target) (t : Target) → All P (ts ++ t ∷ []) → All P ts × P t
All-last P [] t a = (tt, a.0)
All-last P (u ∷ ts) t a = let r = All-last P ts t a.1 in ((a.0, r.0), r.1)

pub IsDistinct-front : (ts : List Target) (t : Target) → IsDistinct (ts ++ t ∷ []) → IsDistinct ts
IsDistinct-front [] t d = tt
IsDistinct-front (u ∷ ts) t d = (
  (absent_last u.dstid u.dstworkerid ts t d.0).1,
  All-front (λ v. (v.place == u.place) ≡ false) ts t d.1,
  IsDistinct-front ts t d.2,
)

key_of-flip : (t u : Target) → key_of t u ≡ false → key_of u t ≡ false
key_of-flip t u h = ground (arith, bytes_eq_iff t.dstid u.dstid, bytes_eq_iff u.dstid t.dstid)

-- The last target is found by its destination.
pub place_of-last :
    (ts : List Target) (t : Target)
    → IsDistinct (ts ++ t ∷ [])
    → place_of t.dstid t.dstworkerid (ts ++ t ∷ []) ≡ some t.place
place_of-last [] t d = rw (same_key_refl t.dstid t.dstworkerid) refl
place_of-last (u ∷ ts) t d =
    let other = key_of-flip u t (absent_last u.dstid u.dstworkerid ts t d.0).0 in
    rw other (place_of-last ts t d.2)

-- Without the last target, its destination is not found, and the others are as before.
pub place_of-front :
    (i : Bytes) (w : ℕ) (ts : List Target) (t : Target)
    → IsDistinct (ts ++ t ∷ [])
    → (if same_key i w t.dstid t.dstworkerid then none else place_of i w (ts ++ t ∷ []))
      ≡ place_of i w ts
place_of-front i w [] t d = elim (Bool-cases (same_key i w t.dstid t.dstworkerid)) [
  | inl b ↦ rw b refl
  | inr b ↦ rw b refl
]
place_of-front i w (u ∷ ts) t d = elim (Bool-cases (same_key i w u.dstid u.dstworkerid)) [
  | inl b ↦
      let (e, e') = same_key_iff i u.dstid w u.dstworkerid b in
      let other : same_key i w t.dstid t.dstworkerid ≡ false =
        rw (e, e') (absent_last u.dstid u.dstworkerid ts t d.0).0 in
      rw (other, b) refl
  | inr b ↦ rw b (place_of-front i w ts t d.2)
]

keep-snoc :
    (limit : ℕ) (u : Target) (ts : List Target) (t : Target)
    → keep limit u (ts ++ t ∷ []) ≡ u ∷ ts ++ t ∷ []
keep-snoc limit u [] t = refl
keep-snoc limit u (x ∷ ts) t = refl

pub evict-busy :
    (limit : ℕ) (ts : List Target) (t : Target)
    → ltb 0 t.inflycnt ≡ true
    → evict limit (ts ++ t ∷ []) ≡ ts ++ t ∷ []
evict-busy zero [] t h = rw h refl
evict-busy (suc limit) [] t h = ground arith
evict-busy limit (u ∷ ts) t h = rw (evict-busy (limit - 1) ts t h) (keep-snoc limit u ts t)

pub evict-idle :
    (limit : ℕ) (ts : List Target) (t : Target)
    → ltb 0 t.inflycnt ≡ false
    → limit ≤ length ts
    → evict limit (ts ++ t ∷ []) ≡ evict limit ts
evict-idle zero [] t h small = rw h refl
evict-idle (suc limit) [] t h small = absurd (omega arith)
evict-idle limit (u ∷ ts) t h small = rw (evict-idle (limit - 1) ts t h (omega arith)) refl

pub evict-small : (limit : ℕ) (ts : List Target) → length ts ≤ limit → evict limit ts ≡ ts
evict-small limit [] h = refl
evict-small zero (t ∷ ts) h = absurd (omega arith)
evict-small (suc limit) (t ∷ ts) h = rw (evict-small (suc limit - 1) ts (omega arith)) (kept ts)
  where
    kept : (us : List Target) → keep (suc limit) t us ≡ t ∷ us
    kept [] = ground arith
    kept (u ∷ us) = refl
