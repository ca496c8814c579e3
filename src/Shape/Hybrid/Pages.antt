-- ===== src/Shape/Hybrid/Pages.antt =====
-- Where a token stands in its page, and whole pages one after another: for
-- kvtransfer/src/parse_block_qwen3_next.cpp.
use native.Mathlib.Nat.{div-add-mod', div-eq_of_lt-le}
use llumnix_kv.Base.{
  ℕ, zero, suc, ◌+◌, ◌-◌, ◌*◌, ◌/◌, ◌%◌, ◌<◌, ◌≤◌, ◌≡◌, refl, ap, List, [], ◌∷◌, ◌++◌, get_or, ◌==◌,
  if◌then◌else◌, page_same, arith, inl, inr, Bool-cases,
}
use llumnix_kv.Types.{IpcBlock}

-- The page where a token stands, at the end of its page and before.
pub next_page : (w n i : ℕ) → 0 < n → w % n + i ≡ n → (w + i) / n ≡ w / n + 1
next_page w n i h e =
    let split : w / n * n + w % n ≡ w = div-add-mod' w n in
    div-eq_of_lt-le n (omega arith) (omega arith)

pub pages_to : (w n i : ℕ) → 0 < n → 0 < i → w % n + i ≤ n → (w + i + n - 1) / n ≡ w / n + 1
pages_to w n i h some e =
    let split : w / n * n + w % n ≡ w = div-add-mod' w n in
    div-eq_of_lt-le n (omega arith) (omega arith)

pub page_end :
    (w n i : ℕ)
    → 0 < n
    → w % n + i ≤ n
    → (w + i) / n ≡ (if w % n + i == n then w / n + 1 else w / n)
page_end w n i some h = elim (Bool-cases (w % n + i == n)) [
  | inl e ↦ rw e (next_page w n i some (ground arith))
  | inr e ↦ rw e (page_same w n i some (ground arith))
]

module _ (size : ℕ) (src dst : List ℕ) where
  -- The whole block `i`, and `count` of them from `i` on.
  abbrev pub page : ℕ → IpcBlock
  page i = record {
    src_offset = get_or src i 0 * size;
    dst_offset = get_or dst i 0 * size;
    length = size;
  }

  abbrev pub pages : ℕ → ℕ → List IpcBlock
  pages i zero = []
  pages i (suc count) = page i ∷ pages (i + 1) count

  pub pages-append : (i a b : ℕ) → pages i a ++ pages (i + a) b ≡ pages i (a + b)
  pages-append i zero b =
      let e : i + 0 ≡ i = omega arith in let e' : 0 + b ≡ b = omega arith in rw (e, e') refl
  pages-append i (suc a) b =
      let e : i + suc a ≡ i + 1 + a = omega arith in
      let e' : suc a + b ≡ suc (a + b) = omega arith in
      rw (e, e') (ap (λ ps. page i ∷ ps) (pages-append (i + 1) a b))
