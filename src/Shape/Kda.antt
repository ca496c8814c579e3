-- ===== src/Shape/Kda.antt =====
-- kvtransfer/src/parse_block_kda.cpp: the recurrent states of linear attention, in pages of their own.
use llumnix_kv.Base.{
  ℕ, ◌+◌, ◌*◌, true, List, [], ◌∷◌, length, u64, ltb, leb, ◌==◌, if◌then◌else◌, Result, ok, ◌>>=◌,
  ◌>>◌, assert, at, div, mod_by, for_range, for_each,
}
use llumnix_kv.Env.{Env}
use llumnix_kv.Types.{IpcBlock, BlockIds, WorkerInfo, ReqSendTask}
use llumnix_kv.Bounds.{IpcBlockBounds, append_ipc_block_checked}
use llumnix_kv.Shape.{SendBlocks, resize}

pub record KdaStateLayout : Type 0 where
  pub state_len : ℕ
  pub qkv_channels : ℕ
  pub conv_size : ℕ
  pub recurrent_size : ℕ

unfoldable pub get_kda_page_stride : Env → WorkerInfo → Result ℕ
get_kda_page_stride env info = do
  assert env.asserts (length info.block_sizes == 1)
  if info.kda_page_stride == 0 then at info.block_sizes 0 else ok info.kda_page_stride

-- `std::accumulate` from `size_t{0}`.
abbrev pub sum_of : List ℕ → ℕ
sum_of [] = 0
sum_of (x ∷ xs) = x + sum_of xs

unfoldable pub get_kda_state_layout : Env → WorkerInfo → Result KdaStateLayout
get_kda_state_layout env info = do
  assert env.asserts (length info.conv_state_shape == 3)
  assert env.asserts (length info.ssm_state_shape == 4)
  assert env.asserts (length info.gdn_conv_channel_dims == 3)
  assert env.asserts (ltb 0 info.gdn_conv_elem_size)
  assert env.asserts (ltb 0 info.gdn_ssm_elem_size)
  state_len ← at info.conv_state_shape (if info.kda_conv_dim_first then 2 else 1)
  qkv_channels ← at info.conv_state_shape (if info.kda_conv_dim_first then 1 else 2)
  assert env.asserts (ltb 0 state_len)
  assert env.asserts (ltb 0 qkv_channels)
  assert env.asserts (u64 (sum_of info.gdn_conv_channel_dims) == qkv_channels)
  heads ← at info.ssm_state_shape 1
  values ← at info.ssm_state_shape 2
  keys ← at info.ssm_state_shape 3
  ok (record {
    state_len = state_len;
    qkv_channels = qkv_channels;
    conv_size = u64 (state_len * qkv_channels * info.gdn_conv_elem_size);
    recurrent_size = u64 (heads * values * keys * info.gdn_ssm_elem_size);
  })

-- The loop of `check_kda_block_groups`; `at` is evaluated within its `assert` only.
unfoldable pub check_group : BlockIds → BlockIds → ℕ → Unit {0} → Result (Unit {0})
check_group src_blocks dst_blocks group_idx _ = do
  s ← at src_blocks group_idx
  d ← at dst_blocks group_idx
  assert true (length s == length d)

unfoldable pub check_kda_block_groups : Env → ℕ → BlockIds → BlockIds → Result (Unit {0})
check_kda_block_groups env layers src_blocks dst_blocks = do
  assert env.asserts (ltb 0 layers)
  assert env.asserts (leb layers (length src_blocks))
  assert env.asserts (leb layers (length dst_blocks))
  for_range (if env.asserts then layers else 0) 0 (check_group src_blocks dst_blocks) tt

unfoldable pub prepare_kda_parse :
    Env → WorkerInfo → WorkerInfo → ReqSendTask → SendBlocks → Result SendBlocks
prepare_kda_parse env src dst task send_blocks = do
  assert env.asserts (length src.block_sizes == 1)
  assert env.asserts (length dst.block_sizes == 1)
  check_kda_block_groups env src.num_gdn_layers task.req.src_blocks task.req.dst_blocks
  ok (resize 1 send_blocks)

-- The offsets within a row, or within the convolution state, and the blocks so far.
pub record Placing : Type 0 where
  pub p_inner : ℕ
  pub d_inner : ℕ
  pub blocks : List IpcBlock

-- One component (Q, K or V) where P has more ranks: `unit` bytes to a channel, from `p_base` to
-- `d_base`.
unfoldable pub place_gt : IpcBlockBounds → ℕ → ℕ → ℕ → ℕ → ℕ → ℕ → Placing → Result Placing
place_gt bounds p_base d_base group_n group_off unit channel_dim s = do
  let component_size = u64 (channel_dim * unit)
  blocks ←
      append_ipc_block_checked s.blocks bounds (u64 (p_base + s.p_inner))
        (u64 (d_base + group_n * s.p_inner + group_off * component_size)) component_size
  ok (record { p_inner = u64 (s.p_inner + component_size); d_inner = s.d_inner; blocks = blocks })

-- One row of the short-convolution history.
unfoldable pub row_gt :
    Env
    → IpcBlockBounds
    → WorkerInfo
    → KdaStateLayout
    → ℕ
    → ℕ
    → ℕ
    → ℕ
    → ℕ
    → List IpcBlock
    → Result (List IpcBlock)
row_gt env bounds src layout p_block_offset d_block_offset group_n group_off state_idx blocks = do
  let p_row_size = u64 (layout.qkv_channels * src.gdn_conv_elem_size)
  let d_row_size = u64 (group_n * p_row_size)
  s ←
      for_each src.gdn_conv_channel_dims
        (place_gt bounds (u64 (p_block_offset + state_idx * p_row_size))
          (u64 (d_block_offset + state_idx * d_row_size)) group_n group_off src.gdn_conv_elem_size)
        (record { p_inner = 0; d_inner = 0; blocks = blocks })
  assert env.asserts (s.p_inner == p_row_size)
  ok s.blocks

-- The convolution state of one block, with the channels first.
unfoldable pub conv_gt :
    Env
    → IpcBlockBounds
    → WorkerInfo
    → KdaStateLayout
    → ℕ
    → ℕ
    → ℕ
    → ℕ
    → List IpcBlock
    → Result (List IpcBlock)
conv_gt env bounds src layout p_block_offset d_block_offset group_n group_off blocks = do
  s ←
      for_each src.gdn_conv_channel_dims
        (place_gt bounds p_block_offset d_block_offset group_n group_off
          (u64 (layout.state_len * src.gdn_conv_elem_size)))
        (record { p_inner = 0; d_inner = 0; blocks = blocks })
  assert env.asserts (s.p_inner == layout.conv_size)
  ok s.blocks

unfoldable pub emit_kda_block_p_gt_d :
    Env
    → IpcBlockBounds
    → WorkerInfo
    → KdaStateLayout
    → ℕ
    → ℕ
    → ℕ
    → ℕ
    → List IpcBlock
    → Result (List IpcBlock)
emit_kda_block_p_gt_d env bounds src layout p_block_offset d_block_offset group_n group_off blocks =
    do
      let channels =
          conv_gt env bounds src layout p_block_offset d_block_offset group_n group_off blocks
      let rows =
          for_range layout.state_len 0
            (row_gt env bounds src layout p_block_offset d_block_offset group_n group_off) blocks
      conv ← if src.kda_conv_dim_first then channels else rows
      append_ipc_block_checked conv bounds (u64 (p_block_offset + layout.conv_size))
          (u64 (d_block_offset + group_n * layout.conv_size + group_off * layout.recurrent_size))
          layout.recurrent_size

-- One component where D has more ranks.
unfoldable pub place_lt : Env → IpcBlockBounds → ℕ → ℕ → ℕ → ℕ → ℕ → ℕ → Placing → Result Placing
place_lt env bounds p_base d_base group_n group_off unit p_channel_dim s = do
  rest ← mod_by p_channel_dim group_n
  assert env.asserts (rest == 0)
  d_channel_dim ← div p_channel_dim group_n
  let component_size = u64 (d_channel_dim * unit)
  blocks ←
      append_ipc_block_checked s.blocks bounds
        (u64 (p_base + s.p_inner + group_off * component_size)) (u64 (d_base + s.d_inner))
        component_size
  ok (record {
    p_inner = u64 (s.p_inner + group_n * component_size);
    d_inner = u64 (s.d_inner + component_size);
    blocks = blocks;
  })

unfoldable pub row_lt :
    Env
    → IpcBlockBounds
    → WorkerInfo
    → KdaStateLayout
    → ℕ
    → ℕ
    → ℕ
    → ℕ
    → ℕ
    → List IpcBlock
    → Result (List IpcBlock)
row_lt env bounds src layout p_block_offset d_block_offset group_n group_off state_idx blocks = do
  let p_row_size = u64 (layout.qkv_channels * src.gdn_conv_elem_size)
  d_row_size ← div p_row_size group_n
  s ←
      for_each src.gdn_conv_channel_dims
        (place_lt env bounds (u64 (p_block_offset + state_idx * p_row_size))
          (u64 (d_block_offset + state_idx * d_row_size)) group_n group_off src.gdn_conv_elem_size)
        (record { p_inner = 0; d_inner = 0; blocks = blocks })
  assert env.asserts (s.p_inner == p_row_size)
  assert env.asserts (s.d_inner == d_row_size)
  ok s.blocks

-- The convolution state, with its size on the D side.
unfoldable pub conv_lt :
    Env
    → IpcBlockBounds
    → WorkerInfo
    → KdaStateLayout
    → ℕ
    → ℕ
    → ℕ
    → ℕ
    → List IpcBlock
    → Result (List IpcBlock × ℕ)
conv_lt env bounds src layout p_block_offset d_block_offset group_n group_off blocks = do
  s ←
      for_each src.gdn_conv_channel_dims
        (place_lt env bounds p_block_offset d_block_offset group_n group_off
          (u64 (layout.state_len * src.gdn_conv_elem_size)))
        (record { p_inner = 0; d_inner = 0; blocks = blocks })
  assert env.asserts (s.p_inner == layout.conv_size)
  ok (s.blocks, s.d_inner)

unfoldable pub rows_lt :
    Env
    → IpcBlockBounds
    → WorkerInfo
    → KdaStateLayout
    → ℕ
    → ℕ
    → ℕ
    → ℕ
    → List IpcBlock
    → Result (List IpcBlock × ℕ)
rows_lt env bounds src layout p_block_offset d_block_offset group_n group_off blocks = do
  rest ← mod_by (u64 (layout.qkv_channels * src.gdn_conv_elem_size)) group_n
  assert env.asserts (rest == 0)
  out ←
      for_range layout.state_len 0
        (row_lt env bounds src layout p_block_offset d_block_offset group_n group_off) blocks
  d_conv_size ← div layout.conv_size group_n
  ok (out, d_conv_size)

unfoldable pub emit_kda_block_p_lt_d :
    Env
    → IpcBlockBounds
    → WorkerInfo
    → KdaStateLayout
    → ℕ
    → ℕ
    → ℕ
    → ℕ
    → List IpcBlock
    → Result (List IpcBlock)
emit_kda_block_p_lt_d env bounds src layout p_block_offset d_block_offset group_n group_off blocks =
    do
      rest ← mod_by layout.recurrent_size group_n
      assert env.asserts (rest == 0)
      d_recurrent_size ← div layout.recurrent_size group_n
      let channels =
          conv_lt env bounds src layout p_block_offset d_block_offset group_n group_off blocks
      let rows =
          rows_lt env bounds src layout p_block_offset d_block_offset group_n group_off blocks
      conv ← if src.kda_conv_dim_first then channels else rows
      append_ipc_block_checked conv.0 bounds
          (u64 (p_block_offset + layout.conv_size + group_off * d_recurrent_size))
          (u64 (d_block_offset + conv.1)) d_recurrent_size
