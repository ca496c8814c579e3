-- ===== src/Base/Partial.antt =====
-- Partial correctness of fallible code: what every successful run ensures.
use Prim.Native.Nat.{ℕ}
use mathlib.Core.Path.{◌≡◌, subst}
use mathlib.Core.Bool.{Bool, true, false}
use mathlib.Core.List.{List}
use llumnix_kv.Base.Tests.{if◌then◌else◌}
use llumnix_kv.Base.Outcome.{Result, Error, ok, err, ◌>>=◌, >>=-eq-ok}
use llumnix_kv.Base.Loops.{while, for_range, for_each, while_safe, for_range_safe, for_each_safe}

pub record Ensures {ℓ κ} {A : Type ℓ} (P : A → Type κ) (r : Result A) : Type (ℓ ⊔ κ) where
  pub holds : (a : A) → r ≡ ok a → P a

module _ {ℓ κ} {A : Type ℓ} {P : A → Type κ} where
  pub Ensures-ok : {a : A} → P a → Ensures P (ok a)
  Ensures-ok h = record { holds = λ b e. subst P (cc) h }

  pub Ensures-err : {e : Error} → Ensures P (err e)
  Ensures-err = record { holds = λ b e. absurd (cc) }

  -- Whatever the first part returns.
  pub Ensures-bind {μ} :
      {B : Type μ} {m : Result B} {f : B → Result A}
      → ((b : B) → m ≡ ok b → Ensures P (f b))
      → Ensures P (m >>= f)
  Ensures-bind {m = m} {f = f} h = record {
    holds = λ a e. let (b, e₁, e₂) = >>=-eq-ok m f e in (h b e₁).holds a e₂;
  }

  -- From what the first part ensures.
  pub Ensures-seq {μ ν} :
      {B : Type μ} {Q : B → Type ν} {m : Result B} {f : B → Result A}
      → Ensures Q m
      → ((b : B) → Q b → Ensures P (f b))
      → Ensures P (m >>= f)
  Ensures-seq q h = Ensures-bind (λ b e. h b (q.holds b e))

  pub Ensures-if :
      (b : Bool) {x y : Result A} → Ensures P x → Ensures P y → Ensures P (if b then x else y)
  Ensures-if true h k = h
  Ensures-if false h k = k

module _ {ℓ κ} {S : Type ℓ} {P : S → Type κ} where
  pub Ensures-while :
      (fuel : ℕ) (test : S → Bool) (body : S → Result S) (s : S)
      → ((s : S) → P s → Ensures P (body s))
      → P s
      → Ensures P (while fuel test body s)
  Ensures-while fuel test body s keep h = record {
    holds = λ t e. while_safe P test body (λ s s' p b e'. (keep s p).holds s' e') fuel s t e h;
  }

  pub Ensures-range :
      (n i : ℕ) (body : ℕ → S → Result S) (s : S)
      → ((i : ℕ) (s : S) → P s → Ensures P (body i s))
      → P s
      → Ensures P (for_range n i body s)
  Ensures-range n i body s keep h = record {
    holds = λ t e. for_range_safe P body (λ i s s' p e'. (keep i s p).holds s' e') n i s t e h;
  }

  pub Ensures-each {μ} :
      {A : Type μ} (xs : List A) (body : A → S → Result S) (s : S)
      → ((x : A) (s : S) → P s → Ensures P (body x s))
      → P s
      → Ensures P (for_each xs body s)
  Ensures-each xs body s keep h = record {
    holds = λ t e. for_each_safe P body (λ x s s' p e'. (keep x s p).holds s' e') xs s t e h;
  }
