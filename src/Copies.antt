-- ===== src/Copies.antt =====
-- What a list of `IpcBlock`s copies, byte by byte, and what the tokens of a request ask for. This is
-- the abstract view by which the block generators are judged; it has no counterpart in the source.
use llumnix_kv.Base.{
  Result, ok, ◌>>=◌, for_range, ℕ, zero, suc, ◌+◌, ◌*◌, ◌/◌, ◌%◌, ◌<◌, ◌≡◌, refl, sym, ap, ◌∙◌,
  List, [], ◌∷◌, ◌++◌, append_assoc, append-nil, get_or, push_back, arith,
}
use llumnix_kv.Types.{IpcBlock}

-- Byte `s + i` goes to byte `d + i`, for each `i` below the length.
unfoldable pub span : ℕ → ℕ → ℕ → List (ℕ × ℕ)
span s d zero = []
span s d (suc n) = (s, d) ∷ span (s + 1) (d + 1) n

unfoldable pub bytes : List IpcBlock → List (ℕ × ℕ)
bytes [] = []
bytes (b ∷ bs) = span b.src_offset b.dst_offset b.length ++ bytes bs

-- The bytes of the `n` tokens from token `t`: token `t` has `width` bytes, from `src t` to `dst t`.
unfoldable pub tokens : (ℕ → ℕ) → (ℕ → ℕ) → ℕ → ℕ → ℕ → List (ℕ × ℕ)
tokens src dst width t zero = []
tokens src dst width t (suc n) = span (src t) (dst t) width ++ tokens src dst width (t + 1) n

-- Where token `t` lies in a paged cache: `ntpb` tokens to a block, `block_stride` bytes from block to
-- block and `token_stride` from token to token.
abbrev pub paged : List ℕ → ℕ → ℕ → ℕ → ℕ → ℕ → ℕ
paged blocks ntpb block_stride token_stride base t =
    get_or blocks (t / ntpb) 0 * block_stride + t % ntpb * token_stride + base

-- Equal arguments, where the equations are arithmetic.
pub span_eq : {s s' d d' n n' : ℕ} → s ≡ s' → d ≡ d' → n ≡ n' → span s d n ≡ span s' d' n'
span_eq p q r = λ i. span (p i) (q i) (r i)

pub span-append : (s d a b : ℕ) → span s d (a + b) ≡ span s d a ++ span (s + a) (d + a) b
unfolding span
span-append s d zero b = span_eq (omega arith) (omega arith) (omega arith)
span-append s d (suc a) b =
    span_eq {s = s} {d = d} {n' = suc (a + b)} refl refl (omega arith)
    ∙ ap (◌∷◌ (s, d)) (
        span-append (s + 1) (d + 1) a b
        ∙ ap (◌++◌ (span (s + 1) (d + 1) a)) (span_eq (omega arith) (omega arith) refl))

pub bytes-append : (xs ys : List IpcBlock) → bytes (xs ++ ys) ≡ bytes xs ++ bytes ys
unfolding bytes
bytes-append [] ys = refl
bytes-append (x ∷ xs) ys = rw (bytes-append xs ys, append_assoc)

pub bytes-push_back :
    (xs : List IpcBlock) (b : IpcBlock)
    → bytes (push_back xs b) ≡ bytes xs ++ span b.src_offset b.dst_offset b.length
unfolding bytes
bytes-push_back xs b = rw (bytes-append xs (b ∷ []), append-nil)

module _ (src dst : ℕ → ℕ) (width : ℕ) where
  tokens_eq :
      {t t' n n' : ℕ} → t ≡ t' → n ≡ n' → tokens src dst width t n ≡ tokens src dst width t' n'
  tokens_eq p q = λ i. tokens src dst width (p i) (q i)

  pub tokens-append :
      (t a b : ℕ)
      → tokens src dst width t (a + b) ≡ tokens src dst width t a ++ tokens src dst width (t + a) b
  unfolding tokens
  tokens-append t zero b = tokens_eq (omega arith) (omega arith)
  tokens-append t (suc a) b =
      tokens_eq {t = t} {n' = suc (a + b)} refl (omega arith)
      ∙ ap (◌++◌ (span (src t) (dst t) width)) (
          tokens-append (t + 1) a b
          ∙ ap (◌++◌ (tokens src dst width (t + 1) a))
              (tokens_eq {t' = t + suc a} (omega arith) refl))
      ∙ sym (
          append_assoc (span (src t) (dst t) width) (tokens src dst width (t + 1) a)
            (tokens src dst width (t + suc a) b))

  pub tokens_none :
      (xs : List (ℕ × ℕ)) (t : ℕ) {n : ℕ} → n ≡ 0 → xs ++ tokens src dst width t n ≡ xs
  unfolding tokens
  tokens_none xs t e = rw e (append-nil xs)

  -- `f` moves by `width` for each of the `n` tokens from `t`.
  abbrev pub Strided : (ℕ → ℕ) → ℕ → ℕ → Type 0
  Strided f t n = (i : ℕ) → i < n → f (t + i) ≡ f t + i * width

  Strided-tail : (f : ℕ → ℕ) (t n : ℕ) → Strided f t (suc (suc n)) → Strided f (t + 1) (suc n)
  Strided-tail f t n h i hi =
      ap f (omega arith)
      ∙ h (suc i) (omega arith)
      ∙ let e : f (t + 1) ≡ f t + 1 * width = h 1 (omega arith) in omega arith

  -- Tokens that lie one after the other at both ends make up one span.
  pub tokens-run :
      (t n : ℕ)
      → Strided src t n
      → Strided dst t n
      → tokens src dst width t n ≡ span (src t) (dst t) (n * width)
  unfolding tokens span
  tokens-run t zero hs hd = span_eq {n = 0} refl refl (omega arith)
  tokens-run t (suc zero) hs hd = append-nil _ ∙ span_eq refl refl (omega arith)
  tokens-run t (suc (suc n)) hs hd =
      ap (◌++◌ (span (src t) (dst t) width)) (
        tokens-run (t + 1) (suc n) (Strided-tail src t n hs) (Strided-tail dst t n hd)
        ∙ span_eq (hs 1 (omega arith) ∙ omega arith) (hd 1 (omega arith) ∙ omega arith) refl)
      ∙ sym (span-append (src t) (dst t) width (suc n * width))
      ∙ span_eq refl refl (omega arith)

  -- The block that copies token `t` alone, and the blocks of the `n` tokens from `t`.
  abbrev pub token_block : ℕ → IpcBlock
  token_block t = record { src_offset = src t; dst_offset = dst t; length = width }

  unfoldable pub token_blocks : ℕ → ℕ → List IpcBlock
  token_blocks t zero = []
  token_blocks t (suc n) = token_block t ∷ token_blocks (t + 1) n

  token_blocks_eq : {t t' n n' : ℕ} → t ≡ t' → n ≡ n' → token_blocks t n ≡ token_blocks t' n'
  token_blocks_eq p q = λ i. token_blocks (p i) (q i)

  pub token_blocks-append :
      (t a b : ℕ) → token_blocks t (a + b) ≡ token_blocks t a ++ token_blocks (t + a) b
  unfolding token_blocks
  token_blocks-append t zero b = token_blocks_eq (omega arith) (omega arith)
  token_blocks-append t (suc a) b =
      token_blocks_eq {t = t} {n' = suc (a + b)} refl (omega arith)
      ∙ ap (◌∷◌ (token_block t)) (
          token_blocks-append (t + 1) a b
          ∙ ap (◌++◌ (token_blocks (t + 1) a))
              (token_blocks_eq {t' = t + suc a} (omega arith) refl))

  pub bytes-token_blocks : (t n : ℕ) → bytes (token_blocks t n) ≡ tokens src dst width t n
  unfolding token_blocks bytes tokens
  bytes-token_blocks t zero = refl
  bytes-token_blocks t (suc n) =
      ap (◌++◌ (span (src t) (dst t) width)) (bytes-token_blocks (t + 1) n)

  -- A counted loop that appends the block of one token in each round.
  pub token_loop :
      (body : ℕ → List IpcBlock → Result (List IpcBlock)) (w stop n i : ℕ) (blocks : List IpcBlock)
      → ((i : ℕ) (blocks : List IpcBlock)
          → i < stop
          → body i blocks ≡ ok (push_back blocks (token_block (w + i))))
      → i + n ≡ stop
      → for_range n i body blocks ≡ ok (blocks ++ token_blocks (w + i) n)
  unfolding for_range ◌>>=◌ token_blocks
  token_loop body w stop zero i blocks h e = ap ok (sym (append-nil blocks))
  token_loop body w stop (suc n) i blocks h e = rw (h i blocks (omega arith)) (
      token_loop body w stop n (i + 1) (push_back blocks (token_block (w + i))) h (omega arith)
      ∙ ap ok (
          append_assoc blocks (token_block (w + i) ∷ []) (token_blocks (w + (i + 1)) n)
          ∙ ap (λ l. blocks ++ (token_block (w + i) ∷ l)) (token_blocks_eq (omega arith) refl)))
