-- ===== src/Targets/Nodes.antt =====
-- The list of targets (kvtransfer/src/client.cpp): one target for each destination, one address for each.
use llumnix_kv.Base.{
  ℕ, ◌≡◌, refl, ap, ◌∙◌, Bool, true, false, List, [], ◌∷◌, Option, none, some, inl, inr, ◌==◌,
  ==_iff, if◌then◌else◌, Bool-cases, Option-cases, All, subst, arith,
}
use llumnix_kv.Types.{Bytes}
use llumnix_kv.Targets.MapLaws.{same_key, bytes_eq_iff}
use llumnix_kv.Targets.Manager.{Target, extract}
use llumnix_kv.Targets.Spec.{take_key, place_of}

abbrev pub key_of : Target → Target → Bool
key_of t u = same_key t.dstid t.dstworkerid u.dstid u.dstworkerid

-- Each target has a destination and an address of its own.
abbrev pub IsDistinct : List Target → Type 0
IsDistinct [] = Unit {0}
IsDistinct (t ∷ ts) =
    (place_of t.dstid t.dstworkerid ts ≡ none)
    × All (λ u. (u.place == t.place) ≡ false) ts
    × IsDistinct ts

pub same_key_iff : (j i : Bytes) (x w : ℕ) → same_key j x i w ≡ true → (j ≡ i) × (x ≡ w)
same_key_iff j i x w h = ground (arith, bytes_eq_iff j i)

pub same_key_refl : (i : Bytes) (w : ℕ) → same_key i w i w ≡ true
same_key_refl i w = let e = (bytes_eq_iff i i).1 refl in ground arith

pub All-extract {ℓ} :
    (P : Target → Type ℓ) (p : ℕ) (ts : List Target) {t : Target} {rest : List Target}
    → extract p ts ≡ some (t, rest)
    → All P ts
    → All P (t ∷ rest)
unfolding extract
All-extract P p [] e a = absurd (cc)
All-extract P p (u ∷ us) {t} {rest} e a = elim (Bool-cases (u.place == p)) [
  | inl b ↦
      let e' : some (u, us) ≡ some (t, rest) = rw b at e in
      let same : u ∷ us ≡ t ∷ rest = cc in subst (All P) same a
  | inr b ↦ elim (Option-cases (extract p us)) [
    | inl n ↦ let e' : none ≡ some (t, rest) = rw (b, n) at e in absurd (cc)
    | inr ((v, vs), s) ↦
        let e' : some (v, u ∷ vs) ≡ some (t, rest) = rw (b, s) at e in
        let same : v ∷ u ∷ vs ≡ t ∷ rest = cc in
        let ih = All-extract P p us s a.1 in subst (All P) same (ih.0, (a.0, ih.1))
  ]
]

pub place_among :
    (i : Bytes) (w p q : ℕ) (ts : List Target)
    → place_of i w ts ≡ some p
    → All (λ u. (u.place == q) ≡ false) ts
    → (p == q) ≡ false
place_among i w p q [] h a = absurd (cc)
place_among i w p q (t ∷ ts) h a = elim (Bool-cases (same_key i w t.dstid t.dstworkerid)) [
  | inl b ↦ let e : some t.place ≡ some p = rw b at h in let e' : t.place ≡ p = cc in rw (← e') a.0
  | inr b ↦ place_among i w p q ts (rw b at h) a.1
]

-- A target found by its destination and taken out by its address.
pub record Extracted (p : ℕ) (i : Bytes) (w : ℕ) (ts : List Target) : Type 0 where
  pub target : Target
  pub rest : List Target
  pub by_place : extract p ts ≡ some (target, rest)
  pub by_key : take_key i w ts ≡ some (target, rest)
  pub lookups : (j : Bytes) (x : ℕ) → place_of j x (target ∷ rest) ≡ place_of j x ts
  pub distinct : IsDistinct (target ∷ rest)

-- The order of two targets for different destinations does not matter to a lookup.
place_of-swap :
    (j : Bytes) (x : ℕ) (t u : Target) (ts : List Target)
    → key_of t u ≡ false
    → place_of j x (t ∷ u ∷ ts) ≡ place_of j x (u ∷ t ∷ ts)
place_of-swap j x t u ts h =
    ground (arith, bytes_eq_iff j t.dstid, bytes_eq_iff j u.dstid, bytes_eq_iff t.dstid u.dstid)

-- A destination that is not among the targets is not that of the first.
absent_first :
    (t u : Target) (ts : List Target)
    → place_of t.dstid t.dstworkerid (u ∷ ts) ≡ none
    → (key_of t u ≡ false) × (place_of t.dstid t.dstworkerid ts ≡ none)
absent_first t u ts h = elim (Bool-cases (key_of t u)) [
  | inl b ↦ let e : some u.place ≡ none = rw b at h in absurd (cc)
  | inr b ↦ (b, rw b at h)
]

pub extracted :
    (p : ℕ) (i : Bytes) (w : ℕ) (ts : List Target)
    → IsDistinct ts
    → place_of i w ts ≡ some p
    → Extracted p i w ts
unfolding extract
extracted p i w [] d h = absurd (cc)
extracted p i w (t ∷ ts) d h = elim (Bool-cases (same_key i w t.dstid t.dstworkerid)) [
  | inl b ↦
      let e : some t.place ≡ some p = rw b at h in
      let here : (t.place == p) ≡ true = (==_iff t.place p).1 (cc) in
      record {
        target = t;
        rest = ts;
        by_place = rw here refl;
        by_key = rw b refl;
        lookups = λ j x. refl;
        distinct = d;
      }
  | inr b ↦
      let h' : place_of i w ts ≡ some p = rw b at h in
      let r = extracted p i w ts d.2 h' in
      let other : (t.place == p) ≡ false =
        let q = place_among i w p t.place ts h' d.1 in ground arith in
      let (apart, free) = absent_first t r.target r.rest (r.lookups t.dstid t.dstworkerid ∙ d.0) in
      let places = All-extract (λ u. (u.place == t.place) ≡ false) p ts r.by_place d.1 in
      record {
        target = r.target;
        rest = t ∷ r.rest;
        by_place = rw (other, r.by_place) refl;
        by_key = rw (b, r.by_key) refl;
        lookups =
            λ j x. place_of-swap j x r.target t r.rest (flip t r.target apart) ∙ again j x t r;
        distinct = (
          rw (flip t r.target apart) r.distinct.0,
          ((let q = places.0 in ground arith), r.distinct.1),
          (free, places.1, r.distinct.2),
        );
      }
]
  where
    flip : (t u : Target) → key_of t u ≡ false → key_of u t ≡ false
    flip t u h = ground (arith, bytes_eq_iff t.dstid u.dstid, bytes_eq_iff u.dstid t.dstid)

    again :
        (j : Bytes) (x : ℕ) (t : Target) (r : Extracted p i w ts)
        → place_of j x (t ∷ r.target ∷ r.rest) ≡ place_of j x (t ∷ ts)
    again j x t r =
        ap (λ (o : Option ℕ). if same_key j x t.dstid t.dstworkerid then some t.place else o)
          (r.lookups j x)
