-- ===== src/Shape/KdaSend.antt =====
-- kvtransfer/src/parse_block_kda.cpp: what is sent of the recurrent states.
use llumnix_kv.Base.{
  ℕ, ◌+◌, ◌*◌, ◌/◌, Bool, not, List, length, set, u64, ltb, leb, ◌==◌, if◌then◌else◌, Result, ok,
  ◌>>=◌, ◌>>◌, assert, at, div, mod_by, for_range,
}
use llumnix_kv.Env.{Env}
use llumnix_kv.Types.{IpcBlock, WorkerInfo, ReqSendTask}
use llumnix_kv.Bounds.{make_ipc_block_bounds, append_ipc_block_checked}
use llumnix_kv.Shape.{SendBlocks}
use llumnix_kv.Shape.Kda.{
  get_kda_page_stride, get_kda_state_layout, prepare_kda_parse, emit_kda_block_p_gt_d,
  emit_kda_block_p_lt_d,
}

-- What is emitted for one pair of blocks, from their offsets.
abbrev pub Emit : Type 0
Emit = ℕ → ℕ → List IpcBlock → Result (List IpcBlock)

-- The inner loop, over the blocks of a group.
unfoldable pub emit_block :
    Emit → ℕ → ℕ → List ℕ → List ℕ → ℕ → List IpcBlock → Result (List IpcBlock)
emit_block emit src_stride dst_stride src_group dst_group block_idx blocks = do
  s ← at src_group block_idx
  d ← at dst_group block_idx
  emit (u64 (s * src_stride)) (u64 (d * dst_stride)) blocks

-- The outer loop, over the groups of recurrent states.
unfoldable pub emit_group : Emit → ℕ → ℕ → ReqSendTask → ℕ → List IpcBlock → Result (List IpcBlock)
emit_group emit src_stride dst_stride task group_idx blocks = do
  src_group ← at task.req.src_blocks group_idx
  dst_group ← at task.req.dst_blocks group_idx
  for_range (length src_group) 0 (emit_block emit src_stride dst_stride src_group dst_group) blocks

-- A page as it is.
unfoldable pub send_pages :
    Env → WorkerInfo → WorkerInfo → ReqSendTask → ℕ → ℕ → SendBlocks → Result SendBlocks
send_pages env src dst task src_stride dst_stride send_blocks = do
  bounds ← make_ipc_block_bounds env src dst 0
  blocks ← at send_blocks 0
  out ←
      for_range src.num_gdn_layers 0
        (emit_group (λ s d bs. append_ipc_block_checked bs bounds s d src_stride) src_stride
          dst_stride task)
        blocks
  ok (set send_blocks 0 out)

unfoldable pub parse_kda_block_send_p_eq_d :
    Env → WorkerInfo → WorkerInfo → List Bool → ℕ → ℕ → ReqSendTask → SendBlocks → Result SendBlocks
parse_kda_block_send_p_eq_d env src dst valid_ranks kvt_tp_size kvt_tp_rank task send_blocks = do
  prepared ← prepare_kda_parse env src dst task send_blocks
  assert env.asserts (src.engine_tp_size == dst.engine_tp_size)
  assert env.asserts (src.worker_tp_rank == dst.worker_tp_rank)
  src_stride ← get_kda_page_stride env src
  dst_stride ← get_kda_page_stride env dst
  assert env.asserts (src_stride == dst_stride)
  if not task.reach_last_token
      then ok prepared
      else send_pages env src dst task src_stride dst_stride prepared

-- From `p_block_size` on.
unfoldable pub send_shards_gt :
    Env → WorkerInfo → WorkerInfo → ReqSendTask → ℕ → ℕ → SendBlocks → Result SendBlocks
send_shards_gt env src dst task group_n group_off send_blocks = do
  p_block_size ← get_kda_page_stride env src
  d_block_size ← get_kda_page_stride env dst
  layout ← get_kda_state_layout env src
  assert env.asserts (leb (u64 (group_n * (layout.conv_size + layout.recurrent_size))) d_block_size)
  assert env.asserts (leb (u64 (layout.conv_size + layout.recurrent_size)) p_block_size)
  bounds ← make_ipc_block_bounds env src dst 0
  blocks ← at send_blocks 0
  out ←
      for_range src.num_gdn_layers 0
        (emit_group (λ s d bs. emit_kda_block_p_gt_d env bounds src layout s d group_n group_off bs)
          p_block_size d_block_size task)
        blocks
  ok (set send_blocks 0 out)

unfoldable pub parse_kda_block_send_p_gt_d :
    Env → WorkerInfo → WorkerInfo → List Bool → ℕ → ℕ → ReqSendTask → SendBlocks → Result SendBlocks
parse_kda_block_send_p_gt_d env src dst valid_ranks kvt_tp_size kvt_tp_rank task send_blocks = do
  prepared ← prepare_kda_parse env src dst task send_blocks
  assert env.asserts (ltb dst.engine_tp_size src.engine_tp_size)
  remainder ← mod_by src.engine_tp_size dst.engine_tp_size
  assert env.asserts (remainder == 0)
  group_n ← div src.engine_tp_size dst.engine_tp_size
  group_off ← mod_by src.worker_tp_rank group_n
  p_group ← div src.worker_tp_rank group_n
  assert env.asserts (p_group == dst.worker_tp_rank)
  if not task.reach_last_token
      then ok prepared
      else send_shards_gt env src dst task group_n group_off prepared

unfoldable pub send_shards_lt :
    Env → WorkerInfo → WorkerInfo → ReqSendTask → ℕ → ℕ → SendBlocks → Result SendBlocks
send_shards_lt env src dst task group_n group_off send_blocks = do
  p_block_size ← get_kda_page_stride env src
  d_block_size ← get_kda_page_stride env dst
  layout ← get_kda_state_layout env src
  conv_rest ← mod_by layout.conv_size group_n
  assert env.asserts (conv_rest == 0)
  recurrent_rest ← mod_by layout.recurrent_size group_n
  assert env.asserts (recurrent_rest == 0)
  assert env.asserts (leb (u64 (layout.conv_size + layout.recurrent_size)) p_block_size)
  assert env.asserts (leb (u64 (layout.conv_size + layout.recurrent_size) / group_n) d_block_size)
  bounds ← make_ipc_block_bounds env src dst 0
  blocks ← at send_blocks 0
  out ←
      for_range src.num_gdn_layers 0
        (emit_group (λ s d bs. emit_kda_block_p_lt_d env bounds src layout s d group_n group_off bs)
          p_block_size d_block_size task)
        blocks
  ok (set send_blocks 0 out)

unfoldable pub parse_kda_block_send_p_lt_d :
    Env → WorkerInfo → WorkerInfo → List Bool → ℕ → ℕ → ReqSendTask → SendBlocks → Result SendBlocks
parse_kda_block_send_p_lt_d env src dst valid_ranks kvt_tp_size kvt_tp_rank task send_blocks = do
  prepared ← prepare_kda_parse env src dst task send_blocks
  assert env.asserts (ltb src.engine_tp_size dst.engine_tp_size)
  remainder ← mod_by dst.engine_tp_size src.engine_tp_size
  assert env.asserts (remainder == 0)
  group_n ← div dst.engine_tp_size src.engine_tp_size
  group_off ← mod_by dst.worker_tp_rank group_n
  d_group ← div dst.worker_tp_rank group_n
  assert env.asserts (d_group == src.worker_tp_rank)
  if not task.reach_last_token
      then ok prepared
      else send_shards_lt env src dst task group_n group_off prepared
