-- ===== src/Shape/Ragged.antt =====
-- kvtransfer/src/parse_block_ragged.cpp: RAGGED_FLASH_CACHE_SHAPE, where K and V of a token lie side by
-- side. `send_blocks` is the list of blocks of each cache tensor; this shape has one.
use llumnix_kv.Base.{
  ℕ, ◌+◌, ◌-◌, ◌*◌, ◌/◌, ◌%◌, Bool, true, false, List, length, set, u32, u64, ltb, ◌==◌,
  if◌then◌else◌, Result, ok, ◌>>=◌, ◌>>◌, assert, at, index, div, mod_by, for_range,
}
use llumnix_kv.Env.{Env}
use llumnix_kv.Types.{IpcBlock, WorkerInfo, ReqSendTask}
use llumnix_kv.Bounds.{IpcBlockBounds, make_ipc_block_bounds, append_ipc_block_checked}
use llumnix_kv.Parse.{do_parse_block_send_p_eq_d, parse_block_send_gt}
use llumnix_kv.Shape.{SendBlocks, resize, sizes_eq}

unfoldable pub parse_block_send_p_eq_d :
    Env → WorkerInfo → WorkerInfo → List Bool → ℕ → ℕ → ReqSendTask → SendBlocks → Result SendBlocks
parse_block_send_p_eq_d env src dst valid_ranks kvt_tp_size kvt_tp_rank task send_blocks = do
  assert env.asserts (kvt_tp_size == dst.engine_tp_size)
  assert env.asserts (src.worker_tp_rank == dst.worker_tp_rank)
  assert env.asserts (sizes_eq src.token_sizes dst.token_sizes)
  assert env.asserts (sizes_eq src.block_sizes dst.block_sizes)
  assert env.asserts (length src.token_sizes == length src.block_sizes)
  assert env.asserts (length dst.token_sizes == length dst.block_sizes)
  assert env.asserts (length src.token_sizes == 1)
  assert env.asserts (length src.block_sizes == 1)
  let resized = resize (length src.token_sizes) send_blocks
  blocks ← index resized 0
  bounds ← make_ipc_block_bounds env src dst 0
  block_size ← index src.block_sizes 0
  token_size ← index src.token_sizes 0
  out ← do_parse_block_send_p_eq_d env block_size token_size task bounds blocks
  ok (set resized 0 out)

-- What the worker of rank 0 sends for all.
unfoldable pub send_as_rank_0 :
    Env → WorkerInfo → WorkerInfo → ReqSendTask → SendBlocks → Result SendBlocks
send_as_rank_0 env p d task send_blocks = do
  assert env.asserts (d.worker_tp_rank == 0)
  assert env.asserts (sizes_eq p.block_sizes d.block_sizes)
  assert env.asserts (length p.token_sizes == length p.block_sizes)
  assert env.asserts (length p.token_sizes == 1)
  assert env.asserts (length p.block_sizes == 1)
  let resized = resize (length p.token_sizes) send_blocks
  blocks ← index resized 0
  bounds ← make_ipc_block_bounds env p d 0
  block_size ← index p.block_sizes 0
  token_size ← index p.token_sizes 0
  out ← do_parse_block_send_p_eq_d env block_size token_size task bounds blocks
  ok (set resized 0 out)

unfoldable pub parse_block_send_p_gt_d_dpsk :
    Env → WorkerInfo → WorkerInfo → List Bool → ℕ → ℕ → ReqSendTask → SendBlocks → Result SendBlocks
parse_block_send_p_gt_d_dpsk env p d valid_ranks kvt_tp_size kvt_tp_rank task send_blocks = do
  assert env.asserts (sizes_eq p.token_sizes d.token_sizes)
  if p.worker_tp_rank == 0 then send_as_rank_0 env p d task send_blocks else ok send_blocks

-- The V block beside the K block at `idx`.
unfoldable pub append_v :
    Env → ℕ → ℕ → IpcBlockBounds → Bool → ℕ → List IpcBlock → Result (List IpcBlock)
append_v env p_k_size d_k_size bounds swap idx blocks = do
  sb ← at blocks idx
  let pv_token_off = u64 (sb.src_offset + (if swap then d_k_size else p_k_size))
  let dv_token_off = u64 (sb.dst_offset + (if swap then p_k_size else d_k_size))
  assert env.asserts (p_k_size == sb.length)
  append_ipc_block_checked blocks bounds pv_token_off dv_token_off p_k_size

unfoldable pub do_parse_block_send_internal :
    Env
    → WorkerInfo
    → ℕ
    → List ℕ
    → WorkerInfo
    → ℕ
    → List ℕ
    → ℕ
    → ℕ
    → IpcBlockBounds
    → Bool
    → SendBlocks
    → Result SendBlocks
do_parse_block_send_internal env p p_tp_size p_blocks d d_tp_size d_blocks wrote_tokens left_tokens
      bounds swap send_blocks =
    do
      assert env.asserts (length p.block_sizes == length d.block_sizes)
      assert env.asserts (length p.token_sizes == length d.token_sizes)
      assert env.asserts (length p.block_sizes == length p.token_sizes)
      assert env.asserts (length p.token_sizes == 1)
      assert env.asserts (length d.token_sizes == 1)
      assert env.asserts (length p.block_sizes == 1)
      assert env.asserts (length d.block_sizes == 1)
      p_block_size ← at p.block_sizes 0
      d_block_size ← at d.block_sizes 0
      p_token_size ← at p.token_sizes 0
      d_token_size ← at d.token_sizes 0
      let resized = resize (length p.token_sizes) send_blocks
      blocks ← at resized 0
      assert env.asserts (ltb d_tp_size p_tp_size)
      remainder ← if env.asserts then mod_by p_tp_size d_tp_size else ok 0
      assert env.asserts (remainder == 0)
      group_n ← div p_tp_size d_tp_size
      p_group ← if env.asserts then div p.worker_tp_rank group_n else ok d.worker_tp_rank
      assert env.asserts (p_group == d.worker_tp_rank)
      group_off ← mod_by p.worker_tp_rank group_n
      assert env.asserts (d_token_size == u64 (p_token_size * group_n))
      assert env.asserts (d_token_size % 2 == 0)
      assert env.asserts (p_token_size % 2 == 0)
      let p_k_size = p_token_size / 2
      let d_k_size = d_token_size / 2
      assert env.asserts (d_k_size == u64 (p_k_size * group_n))
      quotient ← div p_block_size p_token_size
      let ntpb = u32 quotient
      assert env.asserts (u64 (ntpb * p_token_size) == p_block_size)
      assert env.asserts (u64 (ntpb * d_token_size) == d_block_size)
      ks ←
          parse_block_send_gt env p_token_size p_k_size d_token_size ntpb group_off p_blocks
            d_blocks wrote_tokens left_tokens bounds swap blocks
      out ←
          for_range (length ks - length blocks) (length blocks)
            (append_v env p_k_size d_k_size bounds swap) ks
      ok (set resized 0 out)

unfoldable pub parse_block_send_p_gt_d :
    Env → WorkerInfo → WorkerInfo → List Bool → ℕ → ℕ → ReqSendTask → SendBlocks → Result SendBlocks
parse_block_send_p_gt_d env p d valid_ranks kvt_tp_size kvt_tp_rank task send_blocks = do
  bounds ← make_ipc_block_bounds env p d 0
  src_blocks ← index task.req.src_blocks 0
  dst_blocks ← index task.req.dst_blocks 0
  do_parse_block_send_internal env p kvt_tp_size src_blocks d d.engine_tp_size dst_blocks
      task.seen_tokens task.new_tokens bounds false send_blocks

-- The helper's "p side" is the destination here.
unfoldable pub parse_block_send_p_lt_d :
    Env → WorkerInfo → WorkerInfo → List Bool → ℕ → ℕ → ReqSendTask → SendBlocks → Result SendBlocks
parse_block_send_p_lt_d env p d valid_ranks kvt_tp_size kvt_tp_rank task send_blocks = do
  bounds ← make_ipc_block_bounds env p d 0
  src_blocks ← index task.req.src_blocks 0
  dst_blocks ← index task.req.dst_blocks 0
  do_parse_block_send_internal env d d.engine_tp_size dst_blocks p kvt_tp_size src_blocks
      task.seen_tokens task.new_tokens bounds true send_blocks
