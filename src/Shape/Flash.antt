-- ===== src/Shape/Flash.antt =====
-- kvtransfer/src/parse_block_flash.cpp: FLASH_CACHE_SHAPE, where the V tensor of a layer follows its
-- K tensor.
use llumnix_kv.Base.{
  ℕ, ◌+◌, ◌-◌, ◌*◌, ◌/◌, ◌%◌, Bool, false, List, length, set, u32, u64, ltb, ◌==◌, if◌then◌else◌,
  Result, ok, ◌>>=◌, ◌>>◌, assert, at, index, div, mod_by, for_range,
}
use llumnix_kv.Env.{Env}
use llumnix_kv.Types.{IpcBlock, WorkerInfo, ReqSendTask}
use llumnix_kv.Bounds.{IpcBlockBounds, make_ipc_block_bounds, append_ipc_block_checked}
use llumnix_kv.Parse.{do_parse_block_send_p_eq_d, parse_block_send_gt}
use llumnix_kv.Shape.{SendBlocks, resize, sizes_eq, count}

-- The V block of the K block at `sb_idx`.
unfoldable pub append_shifted : IpcBlockBounds → ℕ → ℕ → ℕ → List IpcBlock → Result (List IpcBlock)
append_shifted bounds src_layer_size dst_layer_size sb_idx blocks = do
  sb ← at blocks sb_idx
  append_ipc_block_checked blocks bounds (u64 (sb.src_offset + src_layer_size))
      (u64 (sb.dst_offset + dst_layer_size)) sb.length

unfoldable pub vllm_parse_block_send_p_eq_d :
    Env → WorkerInfo → WorkerInfo → List Bool → ℕ → ℕ → ReqSendTask → SendBlocks → Result SendBlocks
vllm_parse_block_send_p_eq_d env src dst valid_ranks kvt_tp_size kvt_tp_rank task send_blocks = do
  assert env.asserts (kvt_tp_size == dst.engine_tp_size)
  assert env.asserts (sizes_eq src.token_sizes dst.token_sizes)
  assert env.asserts (sizes_eq src.block_sizes dst.block_sizes)
  assert env.asserts (src.worker_tp_rank == dst.worker_tp_rank)
  assert env.asserts (length src.token_sizes == length src.block_sizes)
  assert env.asserts (length dst.token_sizes == length dst.block_sizes)
  assert env.asserts (length src.token_sizes == 1)
  assert env.asserts (length src.block_sizes == 1)
  kv_token_size ← at src.token_sizes 0
  kv_block_size ← at src.block_sizes 0
  let k_token_size = kv_token_size / 2
  let k_block_size = kv_block_size / 2
  assert env.asserts (2 * k_token_size == kv_token_size)
  assert env.asserts (2 * k_block_size == kv_block_size)
  let src_layer_size = u64 (k_block_size * src.layer_num_blocks)
  let dst_layer_size = u64 (k_block_size * dst.layer_num_blocks)
  let resized = resize (length src.token_sizes) send_blocks
  blocks ← at resized 0
  bounds ← make_ipc_block_bounds env src dst 0
  ks ← do_parse_block_send_p_eq_d env k_block_size k_token_size task bounds blocks
  out ←
      for_range (length ks - length blocks) (length blocks)
        (append_shifted bounds src_layer_size dst_layer_size) ks
  ok (set resized 0 out)

-- What a selected rank sends.
unfoldable pub vllm_gt_selected :
    Env → WorkerInfo → WorkerInfo → List Bool → ℕ → ℕ → ReqSendTask → SendBlocks → Result SendBlocks
vllm_gt_selected env p d valid_ranks kvt_tp_size kvt_tp_rank task send_blocks = do
  assert env.asserts (ltb d.engine_tp_size kvt_tp_size)
  group_n ← div (count valid_ranks) d.engine_tp_size
  assert env.asserts (ltb 0 group_n)
  p_group ← if env.asserts then div kvt_tp_rank group_n else ok d.worker_tp_rank
  assert env.asserts (p_group == d.worker_tp_rank)
  group_off ← mod_by kvt_tp_rank group_n
  assert env.asserts (length p.token_sizes == 1)
  assert env.asserts (length d.token_sizes == 1)
  assert env.asserts (length p.block_sizes == 1)
  assert env.asserts (length d.block_sizes == 1)
  p_token_size ← at p.token_sizes 0
  d_token_size ← at d.token_sizes 0
  p_block_size ← at p.block_sizes 0
  d_block_size ← at d.block_sizes 0
  assert env.asserts (d_token_size == u64 (p_token_size * group_n))
  assert env.asserts (d_token_size % 2 == 0)
  assert env.asserts (p_token_size % 2 == 0)
  let p_k_size = p_token_size / 2
  let d_k_size = d_token_size / 2
  assert env.asserts (d_k_size == u64 (p_k_size * group_n))
  quotient ← div p_block_size p_token_size
  let ntpb = u32 quotient
  assert env.asserts (u64 (ntpb * p_token_size) == p_block_size)
  assert env.asserts (u64 (ntpb * d_token_size) == d_block_size)
  let resized = resize (length p.token_sizes) send_blocks
  blocks ← at resized 0
  bounds ← make_ipc_block_bounds env p d 0
  src_blocks ← index task.req.src_blocks 0
  dst_blocks ← index task.req.dst_blocks 0
  ks ←
      parse_block_send_gt env p_k_size p_k_size d_k_size ntpb group_off src_blocks dst_blocks
        task.seen_tokens task.new_tokens bounds false blocks
  out ←
      for_range (length ks - length blocks) (length blocks)
        (append_shifted bounds (u64 (ntpb * p_k_size * p.layer_num_blocks))
          (u64 (ntpb * d_k_size * d.layer_num_blocks)))
        ks
  ok (set resized 0 out)

unfoldable pub vllm_parse_block_send_p_gt_d :
    Env → WorkerInfo → WorkerInfo → List Bool → ℕ → ℕ → ReqSendTask → SendBlocks → Result SendBlocks
vllm_parse_block_send_p_gt_d env p d valid_ranks kvt_tp_size kvt_tp_rank task send_blocks = do
  selected ← index valid_ranks p.worker_tp_rank
  if selected
      then vllm_gt_selected env p d valid_ranks kvt_tp_size kvt_tp_rank task send_blocks
      else ok send_blocks
