-- ===== src/Base/Words.antt =====
-- Machine words. A value is a natural number below its modulus, and arithmetic reduces by it.
-- Reduction commutes with `+` and `*`, so one `u64` round a compound expression stands for the
-- reductions of its parts.
use Prim.Native.Nat.{ℕ, ◌+◌, ◌-◌, ◌*◌, ◌/◌, ◌%◌, ◌^◌, ◌<◌, ◌≤◌}
use mathlib.Core.Path.{◌≡◌, ap, sym, ◌∙◌}
use native.Mathlib.Nat.{add-mul-mod_self_right, mod-add-div'}
use native.Mathlib.Omega.{arith}

-- `uint32_t` and `size_t` (`uint64_t`).
abbrev pub u32 : ℕ → ℕ
u32 n = n % 2 ^ 32

abbrev pub u64 : ℕ → ℕ
u64 n = n % 2 ^ 64

-- `std::numeric_limits<size_t>::max()`.
abbrev pub size_max : ℕ
size_max = 2 ^ 64 - 1

pub u64_lem : {n : ℕ} → n < 2 ^ 64 → u64 n ≡ n
u64_lem h = omega arith

pub u32_lem : {n : ℕ} → n < 2 ^ 32 → u32 n ≡ n
u32_lem h = omega arith

-- A reduction inside a sum or a product is absorbed by the one outside.
pub u64-add : (a b : ℕ) → u64 (u64 a + b) ≡ u64 (a + b)
u64-add a b = omega arith

pub u64-add_right : (a b : ℕ) → u64 (a + u64 b) ≡ u64 (a + b)
u64-add_right a b = omega arith

pub u64-mul : (a b : ℕ) → u64 (a * u64 b) ≡ u64 (a * b)
u64-mul a b =
    sym (add-mul-mod_self_right (a * u64 b) (a * (b / 2 ^ 64)) (2 ^ 64))
    ∙ ap u64 (omega (arith, ap (λ (t : ℕ). a * t) (mod-add-div' b (2 ^ 64))))

-- An offset into block `id` of a layer, computed in parts, is the offset.
pub u64_place :
    (id size off capacity : ℕ)
    → id * size + off ≤ capacity
    → capacity < 2 ^ 64
    → u64 (u64 (id * u64 size) + off) ≡ id * size + off
u64_place id size off capacity h small = omega (arith, u64-mul id size)
