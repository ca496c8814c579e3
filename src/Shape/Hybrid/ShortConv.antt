-- ===== src/Shape/Hybrid/ShortConv.antt =====
-- kvtransfer/src/parse_block_qwen3_next.cpp: the short convolution of PLE, whose whole state every rank
-- holds.
use llumnix_kv.Base.{
  ℕ, ◌+◌, ◌*◌, List, length, u64, ltb, leb, ◌==◌, if◌then◌else◌, Result, ok, ◌>>=◌, ◌>>◌, assert,
  at, for_range,
}
use llumnix_kv.Env.{Env}
use llumnix_kv.Types.{IpcBlock, BlockIds, WorkerInfo}
use llumnix_kv.Bounds.{IpcBlockBounds}
use llumnix_kv.Shape.Hybrid.Gdn.{some_size, copy_group}

-- The group of PLE layer `i`.
unfoldable pub copy_ple :
    Env
    → IpcBlockBounds
    → ℕ
    → ℕ
    → ℕ
    → ℕ
    → BlockIds
    → BlockIds
    → ℕ
    → List IpcBlock
    → Result (List IpcBlock)
copy_ple env bounds p_block_size d_block_size size ple_block_group src_blocks dst_blocks i blocks =
    copy_group env bounds p_block_size d_block_size size src_blocks dst_blocks
      (u64 (ple_block_group + i)) blocks

unfoldable pub parse_hybrid_short_conv_block_send_p_eq_d :
    Env → ℕ → ℕ → ℕ → BlockIds → BlockIds → IpcBlockBounds → List IpcBlock → Result (List IpcBlock)
parse_hybrid_short_conv_block_send_p_eq_d env block_size num_ple_layers ple_block_group src_blocks
      dst_blocks bounds blocks =
    for_range num_ple_layers 0
      (copy_ple env bounds block_size block_size block_size ple_block_group src_blocks dst_blocks)
      blocks

-- The whole state of each layer, where there is a layer. `group_off` is that of the only rank that sends,
-- or any.
unfoldable pub short_conv_state :
    Env
    → ℕ
    → ℕ
    → ℕ
    → ℕ
    → WorkerInfo
    → BlockIds
    → BlockIds
    → IpcBlockBounds
    → List IpcBlock
    → Result (List IpcBlock)
short_conv_state env p_block_size d_block_size num_ple_layers ple_block_group src src_blocks
      dst_blocks bounds blocks =
    do
      assert env.asserts (length src.ple_conv_state_shape == 3)
      rows ← at src.ple_conv_state_shape 1
      channels ← at src.ple_conv_state_shape 2
      let size = u64 (rows * channels * src.ple_conv_elem_size)
      assert env.asserts (leb size p_block_size)
      assert env.asserts (leb size d_block_size)
      for_range num_ple_layers 0
          (copy_ple env bounds p_block_size d_block_size size ple_block_group src_blocks dst_blocks)
          blocks

-- Where P has more ranks, one rank of each group sends.
unfoldable pub short_conv_gt :
    Env
    → ℕ
    → ℕ
    → ℕ
    → ℕ
    → ℕ
    → ℕ
    → WorkerInfo
    → BlockIds
    → BlockIds
    → IpcBlockBounds
    → List IpcBlock
    → Result (List IpcBlock)
short_conv_gt env p_block_size d_block_size num_ple_layers ple_block_group group_n group_off src
      src_blocks dst_blocks bounds blocks =
    do
      assert env.asserts (some_size src.ple_conv_state_shape)
      assert env.asserts (ltb 0 group_n)
      assert env.asserts (ltb group_off group_n)
      if group_off == 0
          then short_conv_state env p_block_size d_block_size num_ple_layers ple_block_group src
              src_blocks dst_blocks bounds blocks
          else ok blocks

unfoldable pub parse_hybrid_short_conv_block_send_p_gt_d :
    Env
    → ℕ
    → ℕ
    → ℕ
    → ℕ
    → ℕ
    → ℕ
    → WorkerInfo
    → BlockIds
    → BlockIds
    → IpcBlockBounds
    → List IpcBlock
    → Result (List IpcBlock)
parse_hybrid_short_conv_block_send_p_gt_d env p_block_size d_block_size num_ple_layers
      ple_block_group group_n group_off src src_blocks dst_blocks bounds blocks =
    if num_ple_layers == 0
    then ok blocks
    else short_conv_gt env p_block_size d_block_size num_ple_layers ple_block_group group_n
        group_off src src_blocks dst_blocks bounds blocks

unfoldable pub short_conv_lt :
    Env
    → ℕ
    → ℕ
    → ℕ
    → ℕ
    → ℕ
    → ℕ
    → WorkerInfo
    → BlockIds
    → BlockIds
    → IpcBlockBounds
    → List IpcBlock
    → Result (List IpcBlock)
short_conv_lt env p_block_size d_block_size num_ple_layers ple_block_group group_n group_off src
      src_blocks dst_blocks bounds blocks =
    do
      assert env.asserts (some_size src.ple_conv_state_shape)
      assert env.asserts (ltb 0 group_n)
      assert env.asserts (ltb group_off group_n)
      short_conv_state env p_block_size d_block_size num_ple_layers ple_block_group src src_blocks
          dst_blocks bounds blocks

unfoldable pub parse_hybrid_short_conv_block_send_p_lt_d :
    Env
    → ℕ
    → ℕ
    → ℕ
    → ℕ
    → ℕ
    → ℕ
    → WorkerInfo
    → BlockIds
    → BlockIds
    → IpcBlockBounds
    → List IpcBlock
    → Result (List IpcBlock)
parse_hybrid_short_conv_block_send_p_lt_d env p_block_size d_block_size num_ple_layers
      ple_block_group group_n group_off src src_blocks dst_blocks bounds blocks =
    if num_ple_layers == 0
    then ok blocks
    else short_conv_lt env p_block_size d_block_size num_ple_layers ple_block_group group_n
        group_off src src_blocks dst_blocks bounds blocks
