-- ===== src/Shape/Hybrid/GdnLt.antt =====
-- kvtransfer/src/parse_block_qwen3_next.cpp: the states of linear attention (GDN), where D has more ranks.
use llumnix_kv.Base.{
  ℕ, ◌+◌, ◌*◌, List, length, u64, ltb, ◌==◌, if◌then◌else◌, Result, ok, ◌>>=◌, ◌>>◌, assert, at,
  div, mod_by, for_range, for_each,
}
use llumnix_kv.Env.{Env}
use llumnix_kv.Types.{IpcBlock, BlockIds, WorkerInfo}
use llumnix_kv.Bounds.{IpcBlockBounds, append_ipc_block_checked}
use llumnix_kv.Shape.Kda.{Placing}
use llumnix_kv.Shape.Hybrid.Gdn.{GdnSizes, gdn_sizes}

-- One component of a row, where D has more ranks.
unfoldable pub gdn_place_lt :
    Env → IpcBlockBounds → ℕ → ℕ → ℕ → ℕ → ℕ → ℕ → Placing → Result Placing
gdn_place_lt env bounds p_base d_base group_n group_off elem_size channels s = do
  let p_step = u64 (channels * elem_size)
  rest ← if env.asserts then mod_by p_step group_n else ok 0
  assert env.asserts (rest == 0)
  d_step ← div p_step group_n
  blocks ←
      append_ipc_block_checked s.blocks bounds (u64 (p_base + s.p_inner + group_off * d_step))
        (u64 (d_base + s.d_inner)) d_step
  ok (record {
    p_inner = u64 (s.p_inner + p_step);
    d_inner = u64 (s.d_inner + d_step);
    blocks = blocks;
  })

unfoldable pub gdn_row_lt :
    Env
    → IpcBlockBounds
    → WorkerInfo
    → GdnSizes
    → ℕ
    → ℕ
    → ℕ
    → ℕ
    → ℕ
    → ℕ
    → List IpcBlock
    → Result (List IpcBlock)
gdn_row_lt env bounds src g d_conv_dim_size group_n group_off p_gdn_off d_gdn_off conv_dim blocks =
    do
      s ←
          for_each src.gdn_conv_channel_dims
            (gdn_place_lt env bounds (u64 (p_gdn_off + conv_dim * g.conv_dim_size))
              (u64 (d_gdn_off + conv_dim * d_conv_dim_size)) group_n group_off
              src.gdn_conv_elem_size)
            (record { p_inner = 0; d_inner = 0; blocks = blocks })
      assert env.asserts (s.p_inner == g.conv_dim_size)
      assert env.asserts (s.d_inner == d_conv_dim_size)
      ok s.blocks

-- `d` holds the sizes on the D side.
unfoldable pub gdn_block_lt :
    Env
    → IpcBlockBounds
    → WorkerInfo
    → GdnSizes
    → GdnSizes
    → ℕ
    → ℕ
    → ℕ
    → ℕ
    → List ℕ
    → List ℕ
    → ℕ
    → List IpcBlock
    → Result (List IpcBlock)
gdn_block_lt env bounds src g d group_n group_off p_block_size d_block_size src_blks dst_blks i
      blocks =
    do
      src_blk ← at src_blks i
      dst_blk ← at dst_blks i
      let p_gdn_off = u64 (src_blk * p_block_size)
      let d_gdn_off = u64 (dst_blk * d_block_size)
      conv ←
          for_range g.conv_rows 0
            (gdn_row_lt env bounds src g d.conv_dim_size group_n group_off p_gdn_off d_gdn_off)
            blocks
      append_ipc_block_checked conv bounds
          (u64 (p_gdn_off + u64 (g.conv_rows * g.conv_dim_size) + group_off * d.ssm_size))
          (u64 (d_gdn_off + u64 (d.conv_rows * d.conv_dim_size))) d.ssm_size

unfoldable pub gdn_group_lt :
    Env
    → IpcBlockBounds
    → WorkerInfo
    → GdnSizes
    → GdnSizes
    → ℕ
    → ℕ
    → ℕ
    → ℕ
    → BlockIds
    → BlockIds
    → ℕ
    → List IpcBlock
    → Result (List IpcBlock)
gdn_group_lt env bounds src g d group_n group_off p_block_size d_block_size src_blocks dst_blocks
      group_idx blocks =
    do
      src_blks ← at src_blocks group_idx
      dst_blks ← at dst_blocks group_idx
      for_range (length src_blks) 0
          (gdn_block_lt env bounds src g d group_n group_off p_block_size d_block_size src_blks
            dst_blks)
          blocks

unfoldable pub parse_hybrid_gdn_block_send_p_lt_d :
    Env
    → ℕ
    → ℕ
    → ℕ
    → ℕ
    → ℕ
    → WorkerInfo
    → BlockIds
    → BlockIds
    → IpcBlockBounds
    → List IpcBlock
    → Result (List IpcBlock)
parse_hybrid_gdn_block_send_p_lt_d env p_block_size d_block_size num_gdn_layers group_n group_off
      src src_blocks dst_blocks bounds blocks =
    do
      g ← gdn_sizes env src num_gdn_layers src_blocks dst_blocks
      assert env.asserts (ltb 0 group_n)
      conv_rest ← if env.asserts then mod_by g.conv_dim_size group_n else ok 0
      assert env.asserts (conv_rest == 0)
      ssm_rest ← if env.asserts then mod_by g.ssm_size group_n else ok 0
      assert env.asserts (ssm_rest == 0)
      d_conv_dim_size ← div g.conv_dim_size group_n
      d_ssm_size ← div g.ssm_size group_n
      let d : GdnSizes = record {
        conv_rows = g.conv_rows;
        conv_dim_size = d_conv_dim_size;
        ssm_size = d_ssm_size;
      }
      for_range num_gdn_layers 0
          (gdn_group_lt env bounds src g d group_n group_off p_block_size d_block_size src_blocks
            dst_blocks)
          blocks
