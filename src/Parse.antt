-- ===== src/Parse.antt =====
-- The block generators that the cache shapes share: kvtransfer/src/parse_block_common.cpp.
pub mod EqLoop
pub mod Side
pub mod Progress
pub mod Views
pub mod ZeroFill
pub mod GtLoop
pub mod Gt
pub mod Safety
pub mod Eq
use llumnix_kv.Base.{
  ℕ, suc, ◌+◌, ◌-◌, ◌*◌, ◌/◌, ◌<◌, Bool, true, ◌&&◌, ◌||◌, List, [], min, length, u32, u64, ltb,
  leb, ◌==◌, if◌then◌else◌, Result, Error, ok, err, ◌>>=◌, ◌>>◌, assert, at, index, div, mod_by,
  while, for_range,
}
use llumnix_kv.Env.{Env}
use llumnix_kv.Types.{IpcBlock, ReqSendTask}
use llumnix_kv.Bounds.{IpcBlockBounds, append_ipc_block_checked}

-- The variables of a generator's loop.
pub record Cursor : Type 0 where
  pub wrote_tokens : ℕ
  pub left_tokens : ℕ
  pub blocks : List IpcBlock

-- while (left_tokens > 0)
abbrev pub tokens_left : Cursor → Bool
tokens_left c = ltb 0 c.left_tokens

-- One round of the loop of `do_parse_block_send_p_eq_d`; `dst_ntpb` is `src_ntpb` there.
unfoldable pub p_eq_d_step :
    Env → ℕ → ℕ → ℕ → List ℕ → List ℕ → IpcBlockBounds → Cursor → Result Cursor
p_eq_d_step env block_size token_size ntpb src_blocks dst_blocks bounds c = do
  src_block_idx ← div c.wrote_tokens ntpb
  src_token_idx ← mod_by c.wrote_tokens ntpb
  assert env.asserts (ltb src_block_idx (length src_blocks))
  src_block ← at src_blocks src_block_idx
  let src_offset = u64 (src_block * block_size + src_token_idx * token_size)
  let taken = min (ntpb - src_token_idx) c.left_tokens
  dst_block_idx ← div c.wrote_tokens ntpb
  dst_token_idx ← mod_by c.wrote_tokens ntpb
  assert env.asserts (ltb dst_block_idx (length dst_blocks))
  dst_block ← at dst_blocks dst_block_idx
  let dst_offset = u64 (dst_block * block_size + dst_token_idx * token_size)
  blocks ← append_ipc_block_checked c.blocks bounds src_offset dst_offset (u64 (taken * token_size))
  ok (record {
    wrote_tokens = u32 (c.wrote_tokens + taken);
    left_tokens = c.left_tokens - taken;
    blocks = blocks;
  })

-- Each round takes a token at least, so `new_tokens + 1` rounds are enough.
unfoldable pub do_parse_block_send_p_eq_d :
    Env → ℕ → ℕ → ReqSendTask → IpcBlockBounds → List IpcBlock → Result (List IpcBlock)
do_parse_block_send_p_eq_d env block_size token_size task bounds blocks = do
  quotient ← div block_size token_size
  let ntpb = u32 quotient
  assert env.asserts (u64 (ntpb * token_size) == block_size)
  src_blocks ← index task.req.src_blocks 0
  dst_blocks ← index task.req.dst_blocks 0
  -- The argument of `reserve`.
  reserved ← div task.new_tokens ntpb
  c ←
      while (suc task.new_tokens) tokens_left
        (p_eq_d_step env block_size token_size ntpb src_blocks dst_blocks bounds)
        (record { wrote_tokens = task.seen_tokens; left_tokens = task.new_tokens; blocks = blocks })
  ok c.blocks

-- One token of `parse_block_send_gt`.
unfoldable pub gt_token :
    ℕ → ℕ → ℕ → ℕ → ℕ → ℕ → ℕ → IpcBlockBounds → Bool → ℕ → List IpcBlock → Result (List IpcBlock)
gt_token p_token_size p_k_size d_token_size group_off p_blk_off d_blk_off base bounds swap idx
      blocks =
    let token_idx = u32 (base + idx) in
    let pk_token_off = u64 (p_blk_off + token_idx * p_token_size) in
    let d_token_off = u64 (d_blk_off + token_idx * d_token_size) in
    let dk_token_off = u64 (d_token_off + group_off * p_k_size) in
    append_ipc_block_checked blocks bounds (if swap then dk_token_off else pk_token_off)
      (if swap then pk_token_off else dk_token_off) p_k_size

-- One round of its outer loop.
unfoldable pub gt_step :
    Env
    → ℕ
    → ℕ
    → ℕ
    → ℕ
    → ℕ
    → ℕ
    → ℕ
    → List ℕ
    → List ℕ
    → IpcBlockBounds
    → Bool
    → Cursor
    → Result Cursor
gt_step env p_token_size p_k_size d_token_size ntpb group_off p_block_size d_block_size p_blocks
      d_blocks bounds swap c =
    do
      block_idx ← div c.wrote_tokens ntpb
      assert env.asserts (ltb block_idx (length p_blocks) && ltb block_idx (length d_blocks))
      token_idx_base ← mod_by c.wrote_tokens ntpb
      p_block ← at p_blocks block_idx
      let p_blk_off = u64 (p_block * p_block_size)
      d_block ← at d_blocks block_idx
      let d_blk_off = u64 (d_block * d_block_size)
      let taken = min (ntpb - token_idx_base) c.left_tokens
      blocks ←
          for_range taken 0
            (gt_token p_token_size p_k_size d_token_size group_off p_blk_off d_blk_off
              token_idx_base bounds swap)
            c.blocks
      ok (record {
        wrote_tokens = u32 (c.wrote_tokens + taken);
        left_tokens = c.left_tokens - taken;
        blocks = blocks;
      })

unfoldable pub parse_block_send_gt :
    Env
    → ℕ
    → ℕ
    → ℕ
    → ℕ
    → ℕ
    → List ℕ
    → List ℕ
    → ℕ
    → ℕ
    → IpcBlockBounds
    → Bool
    → List IpcBlock
    → Result (List IpcBlock)
parse_block_send_gt env p_token_size p_k_size d_token_size ntpb group_off p_blocks d_blocks
      wrote_tokens left_tokens bounds swap blocks =
    do
      assert env.asserts (p_k_size == p_token_size || u64 (p_k_size * 2) == p_token_size)
      let k_size = if env.bf162fp8_conversion then p_k_size / 2 else p_k_size
      c ←
          while (suc left_tokens) tokens_left
            (gt_step env p_token_size k_size d_token_size ntpb group_off (u64 (p_token_size * ntpb))
              (u64 (d_token_size * ntpb)) p_blocks d_blocks bounds swap)
            (record { wrote_tokens = wrote_tokens; left_tokens = left_tokens; blocks = blocks })
      ok c.blocks

-- The variables of the loop of `emit_zero_fill_segments`.
pub record Filling : Type 0 where
  pub filled : ℕ
  pub blocks : List IpcBlock

unfoldable pub zero_fill_step : ℕ → ℕ → ℕ → ℕ → IpcBlockBounds → Filling → Result Filling
zero_fill_step zero_src_off dst_off length max_seg bounds f = do
  let seg = min max_seg (length - f.filled)
  blocks ← append_ipc_block_checked f.blocks bounds zero_src_off (u64 (dst_off + f.filled)) seg
  ok (record { filled = u64 (f.filled + seg); blocks = blocks })

unfoldable pub emit_zero_fill_segments :
    Env → ℕ → ℕ → ℕ → ℕ → IpcBlockBounds → List IpcBlock → Result (List IpcBlock)
emit_zero_fill_segments env zero_src_off dst_off length max_seg bounds blocks = do
  assert env.asserts (ltb 0 max_seg)
  f ←
      while (suc length) (λ (f : Filling). ltb f.filled length)
        (zero_fill_step zero_src_off dst_off length max_seg bounds)
        (record { filled = 0; blocks = blocks })
  ok f.blocks
