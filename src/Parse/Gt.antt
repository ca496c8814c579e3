-- ===== src/Parse/Gt.antt =====
-- `parse_block_send_gt` (kvtransfer/src/parse_block_common.cpp) as a whole.
use llumnix_kv.Base.{
  ◌>>=◌, ℕ, ◌+◌, ◌*◌, ◌/◌, ◌^◌, ◌<◌, ◌≡◌, refl, ◌⊎◌, Bool, true, List, ◌++◌, ◌||◌, ◌==◌, u64,
  if◌then◌else◌, ok, assert_ok, arith,
}
use llumnix_kv.Env.{Env}
use llumnix_kv.Types.{IpcBlock}
use llumnix_kv.Copies.{token_blocks}
use llumnix_kv.Bounds.{IpcBlockBounds}
use llumnix_kv.Parse.{parse_block_send_gt}
use llumnix_kv.Parse.GtLoop.{Grouped, from, to, gt_loop_total}

-- The bytes of K that one token carries: half of them, when they are cast to fp8.
abbrev pub effective : Env → ℕ → ℕ
effective env p_k_size = if env.bf162fp8_conversion then p_k_size / 2 else p_k_size

sizes_ok :
    (p_k_size p_token_size : ℕ)
    → p_token_size < 2 ^ 64
    → (p_k_size ≡ p_token_size) ⊎ (p_k_size * 2 ≡ p_token_size)
    → (p_k_size == p_token_size || u64 (p_k_size * 2) == p_token_size) ≡ true
sizes_ok p_k_size p_token_size small h = ground arith

module _ (env : Env) (p_token_size p_k_size d_token_size ntpb group_off : ℕ)
    (p_blocks d_blocks : List ℕ) (seen new : ℕ) (bounds : IpcBlockBounds) (swap : Bool)
    (blocks : List IpcBlock) where
  -- Where the K bytes of each new token lie within the layers at both ends (`Grouped`),
  -- `parse_block_send_gt` returns, keeps the blocks that were there and appends one block for each
  -- new token, which copies its K bytes, half as many with the cast to fp8, between its place on
  -- the P side and its place in the group on the D side; `swap` exchanges source and destination.
  pub gt_total :
      p_token_size < 2 ^ 64
      → (p_k_size ≡ p_token_size) ⊎ (p_k_size * 2 ≡ p_token_size)
      → Grouped env p_token_size
          (effective env p_k_size)
          d_token_size
          ntpb
          group_off
          p_blocks
          d_blocks
          bounds
          swap
          (seen + new)
      → parse_block_send_gt env p_token_size p_k_size d_token_size ntpb group_off p_blocks d_blocks
          seen new bounds swap blocks
        ≡ ok (
            blocks
            ++ token_blocks
                (from env p_token_size
                  (effective env p_k_size)
                  d_token_size
                  ntpb
                  group_off
                  p_blocks
                  d_blocks
                  bounds
                  swap)
                (to env p_token_size
                  (effective env p_k_size)
                  d_token_size
                  ntpb
                  group_off
                  p_blocks
                  d_blocks
                  bounds
                  swap)
                (effective env p_k_size)
                seen
                new)
  unfolding parse_block_send_gt ◌>>=◌
  gt_total word h v =
      let (t, e, b) =
        gt_loop_total env p_token_size (effective env p_k_size) d_token_size ntpb group_off p_blocks
          d_blocks bounds swap (record { wrote_tokens = seen; left_tokens = new; blocks = blocks })
          v in
      rw (assert_ok env.asserts _ (sizes_ok p_k_size p_token_size word h), e, b) refl
