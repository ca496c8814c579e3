-- ===== src/Parse/Views.antt =====
-- The two views that the generators are judged by: the bytes copied, and the blocks themselves.
use llumnix_kv.Base.{ℕ, ◌≡◌, refl, [], ◌∷◌, append-nil, List, All}
use llumnix_kv.Types.{IpcBlock}
use llumnix_kv.Copies.{
  span, bytes, tokens, bytes-append, tokens-append, token_blocks, token_blocks-append,
}
use llumnix_kv.Parse.Progress.{View}

pub bytes_one : (b : IpcBlock) → bytes (b ∷ []) ≡ span b.src_offset b.dst_offset b.length
unfolding bytes
bytes_one b = append-nil (span b.src_offset b.dst_offset b.length)

pub bytes-nil : bytes [] ≡ []
unfolding bytes
bytes-nil = refl

module _ (src dst : ℕ → ℕ) (width : ℕ) where
  pub tokens-zero : (t : ℕ) → tokens src dst width t 0 ≡ []
  unfolding tokens
  tokens-zero t = refl

  pub token_blocks-zero : (t : ℕ) → token_blocks src dst width t 0 ≡ []
  unfolding token_blocks
  token_blocks-zero t = refl

  abbrev pub bytes_view : (IpcBlock → Type 0) → View (ℕ × ℕ)
  bytes_view P = record {
    Good = P;
    seen = bytes;
    want = tokens src dst width;
    seen-nil = bytes-nil;
    seen-append = bytes-append;
    want-zero = tokens-zero;
    want-append = tokens-append src dst width;
  }

  abbrev pub blocks_view : View IpcBlock
  blocks_view = record {
    Good = λ b. Unit {0};
    seen = λ l. l;
    want = token_blocks src dst width;
    seen-nil = refl;
    seen-append = λ xs ys. refl;
    want-zero = token_blocks-zero;
    want-append = token_blocks-append src dst width;
  }

-- The blocks that are seen as they are need meet nothing.
pub All-Unit : (bs : List IpcBlock) → All (λ b. Unit {0}) bs
All-Unit [] = tt
All-Unit (b ∷ bs) = (tt, All-Unit bs)
