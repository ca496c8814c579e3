-- ===== src/Targets/Held.antt =====
-- Pointers to targets (kvtransfer/src/client.cpp): what `create_or_get`, `try_shrink` and a write leave a
-- pointer pointing to.
use llumnix_kv.Base.{
  ℕ, zero, suc, ◌-◌, ◌≡◌, ◌⊎◌, refl, sym, ap, ◌∙◌, true, false, ◌&&◌, List, [], ◌∷◌, Option, none,
  some, inl, inr, ltb, ◌==◌, if◌then◌else◌, Bool-cases, Option-cases, All, subst, arith,
}
use llumnix_kv.Types.{Bytes}
use llumnix_kv.Targets.MapLaws.{same_key}
use llumnix_kv.Targets.Manager.{Target, node, modify}
use llumnix_kv.Targets.Spec.{take_key, touch, keep, evict, idle}
use llumnix_kv.Targets.Nodes.{IsDistinct}

take_cases :
    (i : Bytes) (w : ℕ) (u : Target) (us : List Target) {t : Target} {rest : List Target}
    → take_key i w (u ∷ us) ≡ some (t, rest)
    → (u ∷ us ≡ t ∷ rest)
      ⊎ ((vs : List Target) × (take_key i w us ≡ some (t, vs)) × (rest ≡ u ∷ vs))
take_cases i w u us {t} {rest} e = elim (Bool-cases (same_key i w u.dstid u.dstworkerid)) [
  | inl b ↦ let e' : some (u, us) ≡ some (t, rest) = rw b at e in inl (cc)
  | inr b ↦ elim (Option-cases (take_key i w us)) [
    | inl n ↦ let e' : none ≡ some (t, rest) = rw (b, n) at e in absurd (cc)
    | inr ((v, vs), s) ↦
        let e' : some (v, u ∷ vs) ≡ some (t, rest) = rw (b, s) at e in
        let v' : v ≡ t = cc in inr (vs, s ∙ ap (λ (x : Target). some (x, vs)) v', cc)
  ]
]

pub All-take {ℓ} :
    (P : Target → Type ℓ) (i : Bytes) (w : ℕ) (ts : List Target) {t : Target} {rest : List Target}
    → take_key i w ts ≡ some (t, rest)
    → All P ts
    → All P (t ∷ rest)
All-take P i w [] e a = absurd (cc)
All-take P i w (u ∷ us) {t} {rest} e a = elim (take_cases i w u us e) [
  | inl same ↦ subst (All P) same a
  | inr (vs, s, same) ↦
      let ih = All-take P i w us s a.1 in (ih.0, subst (All P) (sym same) (a.0, ih.1))
]

node-swap :
    (q : ℕ) (t u : Target) (ts : List Target)
    → (t.place == u.place) ≡ false
    → node q (t ∷ u ∷ ts) ≡ node q (u ∷ t ∷ ts)
unfolding node
node-swap q t u ts h = ground arith

node-take :
    (q : ℕ) (i : Bytes) (w : ℕ) (ts : List Target) {t : Target} {rest : List Target}
    → IsDistinct ts
    → take_key i w ts ≡ some (t, rest)
    → node q (t ∷ rest) ≡ node q ts
unfolding node
node-take q i w [] d e = absurd (cc)
node-take q i w (u ∷ us) {t} {rest} d e = elim (take_cases i w u us e) [
  | inl same ↦ ap (node q) (sym same)
  | inr (vs, s, same) ↦
      let apart = (All-take (λ v. (v.place == u.place) ≡ false) i w us s d.1).0 in
      ap (λ (l : List Target). node q (t ∷ l)) same
      ∙ node-swap q t u vs apart
      ∙ ap (λ (o : Option Target). if u.place == q then some u else o) (node-take q i w us d.2 s)
]

-- `touch` keeps every target, and every pointer but the next one.
pub All-touch {ℓ} :
    (P : Target → Type ℓ) (i : Bytes) (w : ℕ) (new : Target) (ts : List Target)
    → P new
    → All P ts
    → All P (touch i w new ts)
unfolding touch
All-touch P i w new ts p a = elim (Option-cases (take_key i w ts)) [
  | inl n ↦ rw n (p, a)
  | inr ((t, rest), s) ↦ rw s (All-take P i w ts s a)
]

pub node-touch :
    (q : ℕ) (i : Bytes) (w : ℕ) (new : Target) (ts : List Target)
    → IsDistinct ts
    → (new.place == q) ≡ false
    → node q (touch i w new ts) ≡ node q ts
unfolding touch node
node-touch q i w new ts d h = elim (Option-cases (take_key i w ts)) [
  | inl n ↦ rw (n, h) refl
  | inr ((t, rest), s) ↦ rw s (node-take q i w ts d s)
]

abbrev pub written : (Target → Target) → Option Target → Option Target
written f none = none
written f (some t) = some (f t)

-- A write changes what its own pointer points to.
pub node-modify :
    (q p : ℕ) (f : Target → Target) (ts : List Target)
    → ((t : Target) → (f t).place ≡ t.place)
    → node q (modify p f ts) ≡ (if q == p then written f (node q ts) else node q ts)
unfolding node modify
node-modify q p f [] h = ground arith
node-modify q p f (t ∷ ts) h =
    let ih = node-modify q p f ts h in
    elim (Bool-cases (t.place == p)) [
      | inl b ↦ elim (Bool-cases (t.place == q)) [
        | inl c ↦
            let e : (q == p) ≡ true = ground arith in
            let c' : ((f t).place == q) ≡ true = ap (λ (n : ℕ). n == q) (h t) ∙ c in
            rw (b, c', c, e) refl
        | inr c ↦
            let e : (q == p) ≡ false = ground arith in
            let c' : ((f t).place == q) ≡ false = ap (λ (n : ℕ). n == q) (h t) ∙ c in
            rw (b, c', c, e) (let ih' : node q (modify p f ts) ≡ node q ts = rw e at ih in ih')
      ]
      | inr b ↦ elim (Bool-cases (t.place == q)) [
        | inl c ↦ let e : (q == p) ≡ false = ground arith in rw (b, c, e) refl
        | inr c ↦ rw (b, c) ih
      ]
    ]

-- What every write of a kind keeps.
pub All-modify {ℓ κ} :
    (P : Target → Type ℓ) (Q : Target → Type κ) (p : ℕ) (f : Target → Target) (ts : List Target)
    → ((t : Target) → (t.place == p) ≡ true → P t → Q (f t))
    → ((t : Target) → (t.place == p) ≡ false → P t → Q t)
    → All P ts
    → All Q (modify p f ts)
unfolding modify
All-modify P Q p f [] here off a = tt
All-modify P Q p f (t ∷ ts) here off a =
    let rest = All-modify P Q p f ts here off a.1 in
    elim (Bool-cases (t.place == p)) [
      | inl b ↦ rw b (here t b a.0, rest)
      | inr b ↦ rw b (off t b a.0, rest)
    ]

-- The first target goes only where it is idle.
node-keep_busy :
    (limit q : ℕ) (t : Target) (us : List Target)
    → (t.place == q) ≡ true
    → ltb 0 t.inflycnt ≡ true
    → node q (keep limit t us) ≡ some t
unfolding node
node-keep_busy zero q t [] h busy = rw (busy, h) refl
node-keep_busy (suc limit) q t [] h busy = ground arith
node-keep_busy limit q t (u ∷ us) h busy = rw h refl

node-keep_other :
    (limit q : ℕ) (t : Target) (us : List Target)
    → (t.place == q) ≡ false
    → node q (keep limit t us) ≡ node q us
unfolding node
node-keep_other limit q t [] h = ground arith
node-keep_other limit q t (u ∷ us) h = rw h refl

pub evict-keeps :
    (limit q : ℕ) (ts : List Target) {t : Target}
    → node q ts ≡ some t
    → ltb 0 t.inflycnt ≡ true
    → node q (evict limit ts) ≡ some t
unfolding node
evict-keeps limit q [] h busy = absurd (cc)
evict-keeps limit q (u ∷ us) {t} h busy = elim (Bool-cases (u.place == q)) [
  | inl b ↦
      let e : some u ≡ some t = rw b at h in
      let e' : u ≡ t = cc in
      node-keep_busy limit q u (evict (limit - 1) us) b (rw e' busy) ∙ ap some e'
  | inr b ↦
      node-keep_other limit q u (evict (limit - 1) us) b
      ∙ evict-keeps (limit - 1) q us (rw b at h) busy
]

All-keep {ℓ} :
    (P : Target → Type ℓ) (limit : ℕ) (t : Target) (us : List Target)
    → P t
    → All P us
    → All P (keep limit t us)
All-keep P limit t [] p a = elim (Bool-cases (limit == 0 && idle t)) [
  | inl b ↦ rw b tt
  | inr b ↦ rw b (p, tt)
]
All-keep P limit t (u ∷ us) p a = (p, a)

pub All-evict {ℓ} :
    (P : Target → Type ℓ) (limit : ℕ) (ts : List Target) → All P ts → All P (evict limit ts)
All-evict P limit [] a = tt
All-evict P limit (t ∷ ts) a =
    All-keep P limit t (evict (limit - 1) ts) a.0 (All-evict P (limit - 1) ts a.1)
