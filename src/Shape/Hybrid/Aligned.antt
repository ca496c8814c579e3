-- ===== src/Shape/Hybrid/Aligned.antt =====
-- kvtransfer/src/parse_block_qwen3_next.cpp: the copy of whole blocks, and the copy of the indexer cache.
use llumnix_kv.Base.{
  ℕ, suc, ◌+◌, ◌-◌, ◌*◌, ◌&&◌, List, min, length, u32, u64, ltb, ◌==◌, if◌then◌else◌, Result, ok,
  ◌>>=◌, ◌>>◌, assert, at, div, mod_by, while, for_range,
}
use llumnix_kv.Env.{Env}
use llumnix_kv.Types.{IpcBlock, ReqSendTask}
use llumnix_kv.Bounds.{IpcBlockBounds, append_ipc_block_checked}
use llumnix_kv.Parse.{Cursor, tokens_left}

-- How much of its block a round of `taken` tokens from `token_idx` on sends.
unfoldable pub aligned_length : Env → ℕ → ReqSendTask → ℕ → ℕ → ℕ → Result ℕ
aligned_length env block_size task ntpb token_idx taken =
    if taken == ntpb
    then ok block_size
    else if task.reach_last_token
    then ok block_size
    else if token_idx == 0
    then ok 0
    else if token_idx + taken == ntpb
    then ok block_size
    else (assert env.asserts (ltb (token_idx + taken) ntpb) >> ok 0)

-- A whole block.
unfoldable pub whole_block :
    ℕ → List ℕ → List ℕ → IpcBlockBounds → ℕ → List IpcBlock → Result (List IpcBlock)
whole_block block_size src_blocks dst_blocks bounds i blocks = do
  s ← at src_blocks i
  d ← at dst_blocks i
  append_ipc_block_checked blocks bounds (u64 (s * block_size)) (u64 (d * block_size)) block_size

unfoldable pub aligned_step :
    Env → ℕ → ReqSendTask → List ℕ → List ℕ → ℕ → IpcBlockBounds → Cursor → Result Cursor
aligned_step env block_size task src_blocks dst_blocks ntpb bounds c = do
  blk_idx ← div c.wrote_tokens ntpb
  token_idx ← mod_by c.wrote_tokens ntpb
  assert env.asserts (ltb blk_idx (length src_blocks) && ltb blk_idx (length dst_blocks))
  s ← at src_blocks blk_idx
  d ← at dst_blocks blk_idx
  let taken = min (ntpb - token_idx) c.left_tokens
  size ← aligned_length env block_size task ntpb token_idx taken
  blocks ←
      if ltb 0 size
      then append_ipc_block_checked c.blocks bounds (u64 (s * block_size)) (u64 (d * block_size))
          size
      else ok c.blocks
  ok (record {
    wrote_tokens = u32 (c.wrote_tokens + taken);
    left_tokens = c.left_tokens - taken;
    blocks = blocks;
  })

-- The blocks behind those of the tokens, once the request is complete.
unfoldable pub send_trailing :
    Env → ℕ → List ℕ → List ℕ → ℕ → IpcBlockBounds → Cursor → Result (List IpcBlock)
send_trailing env block_size src_blocks dst_blocks ntpb bounds c = do
  next_blk ← div (u32 (c.wrote_tokens + ntpb - 1)) ntpb
  assert env.asserts (length src_blocks == length dst_blocks)
  for_range (length src_blocks - next_blk) next_blk
      (whole_block block_size src_blocks dst_blocks bounds) c.blocks

unfoldable pub do_parse_block_aligned_send :
    Env
    → ℕ
    → ReqSendTask
    → List ℕ
    → List ℕ
    → ℕ
    → IpcBlockBounds
    → List IpcBlock
    → Result (List IpcBlock)
do_parse_block_aligned_send env block_size task src_blocks dst_blocks ntpb bounds blocks = do
  c ←
      while (suc task.new_tokens) tokens_left
        (aligned_step env block_size task src_blocks dst_blocks ntpb bounds)
        (record { wrote_tokens = task.seen_tokens; left_tokens = task.new_tokens; blocks = blocks })
  if task.reach_last_token
      then send_trailing env block_size src_blocks dst_blocks ntpb bounds c
      else ok c.blocks

-- One round of the loop of `parse_hybrid_indexer_block`: some products are of 32 bits.
unfoldable pub indexer_step :
    Env → ℕ → ℕ → List ℕ → List ℕ → ℕ → ℕ → ℕ → IpcBlockBounds → Cursor → Result Cursor
indexer_step env p_block_size d_block_size src_blocks dst_blocks p_ntpb d_ntpb token_size bounds c =
    do
      src_block_idx ← div c.wrote_tokens p_ntpb
      src_token_idx ← mod_by c.wrote_tokens p_ntpb
      dst_block_idx ← div c.wrote_tokens d_ntpb
      dst_token_idx ← mod_by c.wrote_tokens d_ntpb
      assert env.asserts (ltb src_block_idx (length src_blocks))
      assert env.asserts (ltb dst_block_idx (length dst_blocks))
      let taken = min (p_ntpb - src_token_idx) (min (d_ntpb - dst_token_idx) c.left_tokens)
      s ← at src_blocks src_block_idx
      d ← at dst_blocks dst_block_idx
      blocks ←
          append_ipc_block_checked c.blocks bounds
            (u64 (s * p_block_size + u32 (src_token_idx * token_size)))
            (u64 (d * d_block_size + u32 (dst_token_idx * token_size))) (u32 (taken * token_size))
      ok (record {
        wrote_tokens = u32 (c.wrote_tokens + taken);
        left_tokens = c.left_tokens - taken;
        blocks = blocks;
      })

unfoldable pub parse_hybrid_indexer_block :
    Env
    → ℕ
    → ℕ
    → ℕ
    → ℕ
    → List ℕ
    → List ℕ
    → ℕ
    → ℕ
    → ℕ
    → IpcBlockBounds
    → List IpcBlock
    → Result (List IpcBlock)
parse_hybrid_indexer_block env p_block_size d_block_size wrote_tokens left_tokens src_blocks
      dst_blocks p_ntpb d_ntpb token_size bounds blocks =
    do
      assert env.asserts (ltb 0 token_size)
      c ←
          while (suc left_tokens) tokens_left
            (indexer_step env p_block_size d_block_size src_blocks dst_blocks p_ntpb d_ntpb
              token_size bounds)
            (record { wrote_tokens = wrote_tokens; left_tokens = left_tokens; blocks = blocks })
      ok c.blocks
