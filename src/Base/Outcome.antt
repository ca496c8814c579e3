-- ===== src/Base/Outcome.antt =====
-- Outcomes of the C++ code: a value, or the way in which it leaves.
use Prim.Native.Nat.{ℕ, ◌/◌, ◌%◌, ◌<◌}
use mathlib.Core.Path.{◌≡◌, refl}
use mathlib.Core.Bool.{Bool, true, false}
use mathlib.Core.List.{List}
use mathlib.Core.Option.{none, some}
use native.Mathlib.Omega.{arith}
use llumnix_kv.Base.Tests.{◌==◌, if◌then◌else◌}
use llumnix_kv.Base.Lists.{get_elem?, get_or, length, get_elem?-eq-get_or}

-- `out_of_range`, `overflow_error`, `runtime_error` and `invalid_operation` are exceptions;
-- `aborted` is a failed `assert` or `RTASSERT`; `undefined` is undefined behaviour (an unchecked
-- index out of range, a division by zero); `diverges` is a loop that ran out of fuel.
pub data Error : Type 0 where
  out_of_range overflow_error runtime_error invalid_operation aborted undefined diverges : Error

pub data Result {ℓ} (A : Type ℓ) : Type ℓ where
  ok : A → Result A
  err : Error → Result A

infixl 5 ◌>>=◌ ◌>>◌
-- Shut, so that the rules of `Ensures` see it; a proof that computes unfolds it.
unfoldable pub ◌>>=◌ {ℓ κ} : {A : Type ℓ} {B : Type κ} → Result A → (A → Result B) → Result B
err e >>= k = err e
ok x >>= k = k x

abbrev pub ◌>>◌ {ℓ} : {B : Type ℓ} → Result (Unit {0}) → Result B → Result B
r >> next = r >>= λ _. next

-- Leaves with `e` unless the condition holds.
abbrev pub guard : Bool → Error → Result (Unit {0})
guard c e = if c then ok tt else err e

-- `assert(c)`: checked in a build without `NDEBUG` only.
unfoldable pub assert : Bool → Bool → Result (Unit {0})
assert true c = guard c Error.aborted
assert false c = ok tt

-- `v.at(i)`.
unfoldable pub at {ℓ} : {A : Type ℓ} → List A → ℕ → Result A
at xs i = elim (get_elem? xs i) [ none ↦ err Error.out_of_range | some x ↦ ok x ]

-- `v[i]`.
unfoldable pub index {ℓ} : {A : Type ℓ} → List A → ℕ → Result A
index xs i = elim (get_elem? xs i) [ none ↦ err Error.undefined | some x ↦ ok x ]

-- `/` and `%` on unsigned integers.
unfoldable pub div : ℕ → ℕ → Result ℕ
div a b = if b == 0 then err Error.undefined else ok (a / b)

unfoldable pub mod_by : ℕ → ℕ → Result ℕ
mod_by a b = if b == 0 then err Error.undefined else ok (a % b)

pub assert_ok : (checked c : Bool) → c ≡ true → assert checked c ≡ ok tt
unfolding assert
assert_ok true c h = rw h
assert_ok false c h = refl

pub at_ok {ℓ} :
    {A : Type ℓ} (xs : List A) (i : ℕ) (d : A) → i < length xs → at xs i ≡ ok (get_or xs i d)
unfolding at
at_ok xs i d h = rw (get_elem?-eq-get_or xs i d h, at) refl

pub index_ok {ℓ} :
    {A : Type ℓ} (xs : List A) (i : ℕ) (d : A) → i < length xs → index xs i ≡ ok (get_or xs i d)
unfolding index
index_ok xs i d h = rw (get_elem?-eq-get_or xs i d h, index) refl

pub div_ok : (a b : ℕ) → 0 < b → div a b ≡ ok (a / b)
unfolding div
div_ok a b h = ground arith

pub mod_by_ok : (a b : ℕ) → 0 < b → mod_by a b ≡ ok (a % b)
unfolding mod_by
mod_by_ok a b h = ground arith

-- A chain that succeeds, taken apart.
pub >>=-eq-ok {ℓ κ} :
    {A : Type ℓ} {B : Type κ} (r : Result A) (k : A → Result B) {out : B}
    → (r >>= k) ≡ ok out
    → (x : A) × (r ≡ ok x) × (k x ≡ ok out)
unfolding ◌>>=◌
>>=-eq-ok (err e) k h = absurd (cc)
>>=-eq-ok (ok x) k h = (x, refl, h)
