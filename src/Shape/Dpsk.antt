-- ===== src/Shape/Dpsk.antt =====
-- kvtransfer/src/parse_block_dpsk.cpp: DPSK_V32_SPARSE_MLA_SHAPE, with several cache tensors per layer.
use llumnix_kv.Base.{
  ℕ, ◌-◌, ◌*◌, ◌/◌, ◌%◌, Bool, true, false, List, length, set, u32, u64, ltb, ◌==◌, if◌then◌else◌,
  Result, ok, ◌>>=◌, ◌>>◌, assert, at, index, div, mod_by, for_range,
}
use llumnix_kv.Env.{Env}
use llumnix_kv.Types.{WorkerInfo, ReqSendTask}
use llumnix_kv.Bounds.{make_ipc_block_bounds}
use llumnix_kv.Parse.{do_parse_block_send_p_eq_d, parse_block_send_gt}
use llumnix_kv.Shape.{SendBlocks, resize, sizes_eq}
use llumnix_kv.Shape.Ragged.{append_v}

-- One round of the loop of `do_multi_tensor_parse_block_send`.
unfoldable pub multi_tensor_cache :
    Env
    → WorkerInfo
    → ℕ
    → List ℕ
    → WorkerInfo
    → ℕ
    → List ℕ
    → ℕ
    → ℕ
    → WorkerInfo
    → WorkerInfo
    → Bool
    → ℕ
    → SendBlocks
    → Result SendBlocks
multi_tensor_cache env p p_tp_size p_blocks d d_tp_size d_blocks wrote_tokens left_tokens src dst
      swap cache_idx send_blocks =
    do
      p_block_size ← at p.block_sizes cache_idx
      d_block_size ← at d.block_sizes cache_idx
      p_token_size ← at p.token_sizes cache_idx
      d_token_size ← at d.token_sizes cache_idx
      blocks ← at send_blocks cache_idx
      bounds ← make_ipc_block_bounds env src dst cache_idx
      assert env.asserts (ltb d_tp_size p_tp_size)
      remainder ← if env.asserts then mod_by p_tp_size d_tp_size else ok 0
      assert env.asserts (remainder == 0)
      group_n ← div p_tp_size d_tp_size
      p_group ← if env.asserts then div p.worker_tp_rank group_n else ok d.worker_tp_rank
      assert env.asserts (p_group == d.worker_tp_rank)
      group_off ← mod_by p.worker_tp_rank group_n
      assert env.asserts (d_token_size == u64 (p_token_size * group_n))
      assert env.asserts (d_token_size % 2 == 0)
      assert env.asserts (p_token_size % 2 == 0)
      let p_k_size = p_token_size / 2
      let d_k_size = d_token_size / 2
      assert env.asserts (d_k_size == u64 (p_k_size * group_n))
      quotient ← div p_block_size p_token_size
      let ntpb = u32 quotient
      assert env.asserts (u64 (ntpb * p_token_size) == p_block_size)
      assert env.asserts (u64 (ntpb * d_token_size) == d_block_size)
      ks ←
          parse_block_send_gt env p_token_size p_k_size d_token_size ntpb group_off p_blocks
            d_blocks wrote_tokens left_tokens bounds swap blocks
      out ←
          for_range (length ks - length blocks) (length blocks)
            (append_v env p_k_size d_k_size bounds swap) ks
      ok (set send_blocks cache_idx out)

unfoldable pub do_multi_tensor_parse_block_send :
    Env
    → WorkerInfo
    → ℕ
    → List ℕ
    → WorkerInfo
    → ℕ
    → List ℕ
    → ℕ
    → ℕ
    → WorkerInfo
    → WorkerInfo
    → Bool
    → SendBlocks
    → Result SendBlocks
do_multi_tensor_parse_block_send env p p_tp_size p_blocks d d_tp_size d_blocks wrote_tokens
      left_tokens src dst swap send_blocks =
    do
      assert env.asserts (length p.block_sizes == length d.block_sizes)
      assert env.asserts (length p.token_sizes == length d.token_sizes)
      assert env.asserts (length p.block_sizes == length p.token_sizes)
      for_range (length p.block_sizes) 0
          (multi_tensor_cache env p p_tp_size p_blocks d d_tp_size d_blocks wrote_tokens left_tokens
            src dst swap)
          (resize (length p.token_sizes) send_blocks)

-- One round of the loops over the tensors where P and D hold the same tokens.
unfoldable pub same_cache :
    Env → WorkerInfo → WorkerInfo → ReqSendTask → ℕ → SendBlocks → Result SendBlocks
same_cache env src dst task i send_blocks = do
  blocks ← at send_blocks i
  bounds ← make_ipc_block_bounds env src dst i
  block_size ← at src.block_sizes i
  token_size ← at src.token_sizes i
  out ← do_parse_block_send_p_eq_d env block_size token_size task bounds blocks
  ok (set send_blocks i out)

-- What a selected rank sends.
unfoldable pub multi_tensor_selected :
    Env → WorkerInfo → WorkerInfo → ℕ → ℕ → ReqSendTask → SendBlocks → Result SendBlocks
multi_tensor_selected env src dst kvt_tp_size kvt_tp_rank task send_blocks = do
  assert env.asserts (kvt_tp_size == dst.engine_tp_size)
  assert env.asserts (kvt_tp_rank == dst.worker_tp_rank)
  assert env.asserts (sizes_eq src.token_sizes dst.token_sizes)
  assert env.asserts (sizes_eq src.block_sizes dst.block_sizes)
  assert env.asserts (length src.token_sizes == length src.block_sizes)
  assert env.asserts (length dst.token_sizes == length dst.block_sizes)
  for_range (length src.token_sizes) 0 (same_cache env src dst task)
      (resize (length src.token_sizes) send_blocks)

unfoldable pub vllm_parse_block_send_multi_tensor_p_eq_d :
    Env → WorkerInfo → WorkerInfo → List Bool → ℕ → ℕ → ReqSendTask → SendBlocks → Result SendBlocks
vllm_parse_block_send_multi_tensor_p_eq_d env src dst valid_ranks kvt_tp_size kvt_tp_rank task
      send_blocks =
    do
      selected ← index valid_ranks src.worker_tp_rank
      if selected
          then multi_tensor_selected env src dst kvt_tp_size kvt_tp_rank task send_blocks
          else ok send_blocks

-- What the worker of rank 0 sends for all, where every P rank holds the same cache.
unfoldable pub multi_tensor_rank_0 :
    Env → WorkerInfo → WorkerInfo → ReqSendTask → SendBlocks → Result SendBlocks
multi_tensor_rank_0 env p d task send_blocks = do
  assert env.asserts (d.worker_tp_rank == 0)
  assert env.asserts (sizes_eq p.block_sizes d.block_sizes)
  assert env.asserts (length p.token_sizes == length p.block_sizes)
  for_range (length p.token_sizes) 0 (same_cache env p d task)
      (resize (length p.token_sizes) send_blocks)

-- What each P rank sends, where D holds more of each token.
unfoldable pub multi_tensor_grouped :
    Env → WorkerInfo → WorkerInfo → ℕ → ReqSendTask → SendBlocks → Result SendBlocks
multi_tensor_grouped env p d kvt_tp_size task send_blocks = do
  src_blocks ← at task.req.src_blocks 0
  dst_blocks ← at task.req.dst_blocks 0
  do_multi_tensor_parse_block_send env p kvt_tp_size src_blocks d d.engine_tp_size dst_blocks
      task.seen_tokens task.new_tokens p d false send_blocks

unfoldable pub vllm_parse_block_send_multi_tensor_p_gt_d :
    Env → WorkerInfo → WorkerInfo → List Bool → ℕ → ℕ → ReqSendTask → SendBlocks → Result SendBlocks
vllm_parse_block_send_multi_tensor_p_gt_d env p d valid_ranks kvt_tp_size kvt_tp_rank task
      send_blocks =
    let at_rank_0 = multi_tensor_rank_0 env p d task send_blocks in
    let grouped = multi_tensor_grouped env p d kvt_tp_size task send_blocks in
    if sizes_eq p.token_sizes d.token_sizes
    then (if p.worker_tp_rank == 0 then at_rank_0 else ok send_blocks)
    else grouped

unfoldable pub vllm_parse_block_send_multi_tensor_p_lt_d :
    Env → WorkerInfo → WorkerInfo → List Bool → ℕ → ℕ → ReqSendTask → SendBlocks → Result SendBlocks
vllm_parse_block_send_multi_tensor_p_lt_d env p d valid_ranks kvt_tp_size kvt_tp_rank task
      send_blocks =
    do
      dst_blocks ← at task.req.dst_blocks 0
      src_blocks ← at task.req.src_blocks 0
      do_multi_tensor_parse_block_send env d d.engine_tp_size dst_blocks p kvt_tp_size src_blocks
          task.seen_tokens task.new_tokens p d true send_blocks
