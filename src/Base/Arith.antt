-- ===== src/Base/Arith.antt =====
-- Arithmetic of pages that hold `n` tokens each.
use Prim.Native.Nat.{ℕ, ◌+◌, ◌-◌, ◌*◌, ◌/◌, ◌%◌, ◌≤◌, ◌<◌, min}
use mathlib.Core.Path.{◌≡◌, ap}
use native.Mathlib.Nat.{div-lt_iff_lt-mul, div-add-mod', mod-lt, div-eq_of_lt-le}
use native.Mathlib.Omega.{arith}

pub mul_mono : (a b c : ℕ) → a ≤ b → a * c ≤ b * c
mul_mono a b c h = grind arith

pub page_lt : (w n pages : ℕ) → 0 < n → w < n * pages → w / n < pages
page_lt w n pages h lt = (div-lt_iff_lt-mul h).1 (omega arith)

pub page_room : (w n : ℕ) → 0 < n → w % n < n
page_room w n h = mod-lt w h

-- The tokens taken in one round stay in their page.
pub taken_room : (w n left : ℕ) → 0 < n → w % n + min (n - w % n) left ≤ n
taken_room w n left h = omega (arith, page_room w n h)

pub taken_pos : (w n left : ℕ) → 0 < n → 0 < left → 0 < min (n - w % n) left
taken_pos w n left h l = omega (arith, page_room w n h)

-- The page and the place of a token further on in the same page.
pub page_same : (w n i : ℕ) → 0 < n → w % n + i < n → (w + i) / n ≡ w / n
page_same w n i h lt =
    let split : w / n * n + w % n ≡ w = div-add-mod' w n in
    div-eq_of_lt-le n (omega arith) (omega arith)

pub place_same : (w n i : ℕ) → 0 < n → w % n + i < n → (w + i) % n ≡ w % n + i
place_same w n i h lt =
    omega (
      arith,
      div-add-mod' w n,
      div-add-mod' (w + i) n,
      ap (λ (t : ℕ). t * n) (page_same w n i h lt),
    )
