-- ===== src/Shape/Hybrid/Gdn.antt =====
-- kvtransfer/src/parse_block_qwen3_next.cpp: the states of linear attention (GDN), whole on equal
-- tensor-parallel sizes and sliced where P has more ranks.
use llumnix_kv.Base.{
  ℕ, ◌+◌, ◌*◌, ◌&&◌, List, [], ◌∷◌, length, u64, ltb, leb, Bool, true, false, ◌==◌, Result, ok,
  ◌>>=◌, ◌>>◌, assert, at, for_range, for_each,
}
use llumnix_kv.Env.{Env}
use llumnix_kv.Types.{IpcBlock, BlockIds, WorkerInfo}
use llumnix_kv.Bounds.{IpcBlockBounds, append_ipc_block_checked}
use llumnix_kv.Shape.Kda.{place_gt}

-- A block of a group, from one page to another.
unfoldable pub copy_block :
    IpcBlockBounds → ℕ → ℕ → ℕ → List ℕ → List ℕ → ℕ → List IpcBlock → Result (List IpcBlock)
copy_block bounds p_block_size d_block_size size src_grp dst_grp i blocks = do
  s ← at src_grp i
  d ← at dst_grp i
  append_ipc_block_checked blocks bounds (u64 (s * p_block_size)) (u64 (d * d_block_size)) size

-- The blocks of a group.
unfoldable pub copy_group :
    Env
    → IpcBlockBounds
    → ℕ
    → ℕ
    → ℕ
    → BlockIds
    → BlockIds
    → ℕ
    → List IpcBlock
    → Result (List IpcBlock)
copy_group env bounds p_block_size d_block_size size src_blocks dst_blocks group_idx blocks = do
  assert env.asserts (ltb group_idx (length src_blocks) && ltb group_idx (length dst_blocks))
  src_grp ← at src_blocks group_idx
  dst_grp ← at dst_blocks group_idx
  assert env.asserts (length src_grp == length dst_grp)
  for_range (length src_grp) 0 (copy_block bounds p_block_size d_block_size size src_grp dst_grp)
      blocks

unfoldable pub parse_hybrid_gdn_block_send_p_eq_d :
    Env → ℕ → ℕ → BlockIds → BlockIds → IpcBlockBounds → List IpcBlock → Result (List IpcBlock)
parse_hybrid_gdn_block_send_p_eq_d env block_size num_gdn_layers src_blocks dst_blocks bounds
      blocks =
    for_range num_gdn_layers 0
      (copy_group env bounds block_size block_size block_size src_blocks dst_blocks) blocks

-- The sizes of a state: `conv_rows` rows of `conv_dim_size` bytes each, then `ssm_size` bytes.
pub record GdnSizes : Type 0 where
  pub conv_rows : ℕ
  pub conv_dim_size : ℕ
  pub ssm_size : ℕ

abbrev pub some_size : List ℕ → Bool
some_size [] = false
some_size (x ∷ xs) = true

unfoldable pub gdn_sizes : Env → WorkerInfo → ℕ → BlockIds → BlockIds → Result GdnSizes
gdn_sizes env src num_gdn_layers src_blocks dst_blocks = do
  assert env.asserts (leb num_gdn_layers (length src_blocks))
  assert env.asserts (leb num_gdn_layers (length dst_blocks))
  assert env.asserts (some_size src.conv_state_shape)
  assert env.asserts (some_size src.ssm_state_shape)
  assert env.asserts (some_size src.gdn_conv_channel_dims)
  channels ← at src.conv_state_shape 2
  rows ← at src.conv_state_shape 1
  heads ← at src.ssm_state_shape 1
  values ← at src.ssm_state_shape 2
  keys ← at src.ssm_state_shape 3
  ok (record {
    conv_rows = rows;
    conv_dim_size = u64 (channels * src.gdn_conv_elem_size);
    ssm_size = u64 (heads * values * keys * src.gdn_ssm_elem_size);
  })

-- One row of the convolution state, where P has more ranks.
unfoldable pub gdn_row_gt :
    Env
    → IpcBlockBounds
    → WorkerInfo
    → GdnSizes
    → ℕ
    → ℕ
    → ℕ
    → ℕ
    → ℕ
    → List IpcBlock
    → Result (List IpcBlock)
gdn_row_gt env bounds src g group_n group_off p_gdn_off d_gdn_off conv_dim blocks = do
  s ←
      for_each src.gdn_conv_channel_dims
        (place_gt bounds (u64 (p_gdn_off + conv_dim * g.conv_dim_size))
          (u64 (d_gdn_off + conv_dim * u64 (group_n * g.conv_dim_size))) group_n group_off
          src.gdn_conv_elem_size)
        (record { p_inner = 0; d_inner = 0; blocks = blocks })
  assert env.asserts (s.p_inner == g.conv_dim_size)
  ok s.blocks

-- The state in one block.
unfoldable pub gdn_block_gt :
    Env
    → IpcBlockBounds
    → WorkerInfo
    → GdnSizes
    → ℕ
    → ℕ
    → ℕ
    → ℕ
    → List ℕ
    → List ℕ
    → ℕ
    → List IpcBlock
    → Result (List IpcBlock)
gdn_block_gt env bounds src g group_n group_off p_block_size d_block_size src_blks dst_blks i
      blocks =
    do
      s ← at src_blks i
      d ← at dst_blks i
      let p_gdn_off = u64 (s * p_block_size)
      let d_gdn_off = u64 (d * d_block_size)
      let conv_block_size = u64 (g.conv_rows * g.conv_dim_size)
      conv ←
          for_range g.conv_rows 0
            (gdn_row_gt env bounds src g group_n group_off p_gdn_off d_gdn_off) blocks
      append_ipc_block_checked conv bounds (u64 (p_gdn_off + conv_block_size))
          (u64 (d_gdn_off + group_n * conv_block_size + group_off * g.ssm_size)) g.ssm_size

unfoldable pub gdn_group_gt :
    Env
    → IpcBlockBounds
    → WorkerInfo
    → GdnSizes
    → ℕ
    → ℕ
    → ℕ
    → ℕ
    → BlockIds
    → BlockIds
    → ℕ
    → List IpcBlock
    → Result (List IpcBlock)
gdn_group_gt env bounds src g group_n group_off p_block_size d_block_size src_blocks dst_blocks
      group_idx blocks =
    do
      src_blks ← at src_blocks group_idx
      dst_blks ← at dst_blocks group_idx
      for_range (length src_blks) 0
          (gdn_block_gt env bounds src g group_n group_off p_block_size d_block_size src_blks
            dst_blks)
          blocks

unfoldable pub parse_hybrid_gdn_block_send_p_gt_d :
    Env
    → ℕ
    → ℕ
    → ℕ
    → ℕ
    → ℕ
    → WorkerInfo
    → BlockIds
    → BlockIds
    → IpcBlockBounds
    → List IpcBlock
    → Result (List IpcBlock)
parse_hybrid_gdn_block_send_p_gt_d env p_block_size d_block_size num_gdn_layers group_n group_off
      src src_blocks dst_blocks bounds blocks =
    do
      g ← gdn_sizes env src num_gdn_layers src_blocks dst_blocks
      for_range num_gdn_layers 0
          (gdn_group_gt env bounds src g group_n group_off p_block_size d_block_size src_blocks
            dst_blocks)
          blocks
