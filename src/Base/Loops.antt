-- ===== src/Base/Loops.antt =====
-- Loops whose body may fail, with their rules.
use Prim.Native.Nat.{ℕ, zero, suc, ◌+◌, ◌<◌}
use mathlib.Core.Path.{◌≡◌, refl, subst}
use mathlib.Core.Bool.{Bool, true, false}
use mathlib.Core.Logic.{inl, inr}
use mathlib.Core.List.{List, [], ◌∷◌}
use native.Mathlib.Omega.{arith}
use llumnix_kv.Base.Tests.{Bool-cases}
use llumnix_kv.Base.Outcome.{Result, Error, ok, err, ◌>>=◌, >>=-eq-ok}

module _ {ℓ} {S : Type ℓ} where
  -- while (test(s)) s = body(s); with fuel.
  unfoldable pub while : ℕ → (S → Bool) → (S → Result S) → S → Result S
  while zero test body s = elim (test s) [ true ↦ err Error.diverges | false ↦ ok s ]
  while (suc fuel) test body s = elim (test s) [
    | true ↦ body s >>= λ s'. while fuel test body s'
    | false ↦ ok s
  ]

  -- for (i = start; i < start + rounds; ++i) s = body(i, s);
  unfoldable pub for_range : ℕ → ℕ → (ℕ → S → Result S) → S → Result S
  for_range zero i body s = ok s
  for_range (suc n) i body s = body i s >>= λ s'. for_range n (i + 1) body s'

  -- for (x : xs) s = body(x, s);
  unfoldable pub for_each {κ} : {A : Type κ} → List A → (A → S → Result S) → S → Result S
  for_each [] body s = ok s
  for_each (x ∷ xs) body s = body x s >>= λ s'. for_each xs body s'

-- What every successful run keeps.
module _ {ℓ κ} {S : Type ℓ} (P : S → Type κ) where
  pub while_safe :
      (test : S → Bool) (body : S → Result S)
      → ((s s' : S) → P s → test s ≡ true → body s ≡ ok s' → P s')
      → (fuel : ℕ) (s t : S) → while fuel test body s ≡ ok t
      → P s
      → P t
  unfolding while ◌>>=◌
  while_safe test body keep zero s t e h = elim (Bool-cases (test s)) [
    | inl b ↦ let e' : err Error.diverges ≡ ok t = rw (b, while) at e in cc
    | inr b ↦ let e' : ok s ≡ ok t = rw (b, while) at e in subst P (cc) h
  ]
  while_safe test body keep (suc fuel) s t e h = elim (Bool-cases (test s)) [
    | inl b ↦
        let (s', e₁, e₂) = >>=-eq-ok (body s) (while fuel test body) (rw (b, while) at e) in
        while_safe test body keep fuel s' t e₂ (keep s s' h b e₁)
    | inr b ↦ let e' : ok s ≡ ok t = rw (b, while) at e in subst P (cc) h
  ]

  pub for_range_safe :
      (body : ℕ → S → Result S)
      → ((i : ℕ) (s s' : S) → P s → body i s ≡ ok s' → P s')
      → (n i : ℕ) (s t : S) → for_range n i body s ≡ ok t
      → P s
      → P t
  unfolding for_range ◌>>=◌
  for_range_safe body keep zero i s t e h = subst P (cc) h
  for_range_safe body keep (suc n) i s t e h =
      let (s', e₁, e₂) = >>=-eq-ok (body i s) (for_range n (i + 1) body) e in
      for_range_safe body keep n (i + 1) s' t e₂ (keep i s s' h e₁)

  pub for_each_safe {μ} :
      {A : Type μ} (body : A → S → Result S)
      → ((x : A) (s s' : S) → P s → body x s ≡ ok s' → P s')
      → (xs : List A) (s t : S) → for_each xs body s ≡ ok t
      → P s
      → P t
  unfolding for_each ◌>>=◌
  for_each_safe body keep [] s t e h = subst P (cc) h
  for_each_safe body keep (x ∷ xs) s t e h =
      let (s', e₁, e₂) = >>=-eq-ok (body x s) (for_each xs body) e in
      for_each_safe body keep xs s' t e₂ (keep x s s' h e₁)

-- Total correctness of a loop: with a body that succeeds, keeps the invariant and makes the measure
-- fall, and as much fuel as the measure, the run succeeds and ends by its test.
module _ {ℓ κ} {S : Type ℓ} (P : S → Type κ) where
  pub while_total :
      (measure : S → ℕ) (test : S → Bool) (body : S → Result S)
      → ((s : S)
          → P s
          → test s ≡ true
          → (s' : S) × (body s ≡ ok s') × P s' × (measure s' < measure s))
      → (fuel : ℕ) (s : S) → measure s < fuel
      → P s
      → (t : S) × (while fuel test body s ≡ ok t) × P t × (test t ≡ false)
  unfolding while ◌>>=◌
  while_total measure test body run zero s m h = absurd (omega arith)
  while_total measure test body run (suc fuel) s m h = elim (Bool-cases (test s)) [
    | inl b ↦
        let (s', e₁, h', lt) = run s h b in
        let (t, e₂, p, q) = while_total measure test body run fuel s' (omega arith) h' in
        (t, rw (b, e₁, while) e₂, p, q)
    | inr b ↦ (s, rw (b, while) refl, h, b)
  ]

module _ {ℓ} {S : Type ℓ} where
  -- The counted loop, with an invariant that may name the counter.
  pub for_range_total {μ} :
      (I : ℕ → S → Type μ) (body : ℕ → S → Result S) (stop : ℕ)
      → ((i : ℕ) (s : S) → i < stop → I i s → (s' : S) × (body i s ≡ ok s') × I (i + 1) s')
      → (n i : ℕ) (s : S) → i + n ≡ stop
      → I i s
      → (t : S) × (for_range n i body s ≡ ok t) × I stop t
  unfolding for_range ◌>>=◌
  for_range_total I body stop run zero i s e h =
      (s, refl, let e' : i ≡ stop = omega arith in subst (λ k. I k s) e' h)
  for_range_total I body stop run (suc n) i s e h =
      let (s', e₁, h') = run i s (omega arith) h in
      let (t, e₂, r) = for_range_total I body stop run n (i + 1) s' (omega arith) h' in
      (t, rw e₁ e₂, r)
