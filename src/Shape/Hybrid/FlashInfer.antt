-- ===== src/Shape/Hybrid/FlashInfer.antt =====
-- kvtransfer/src/parse_block_flashinfer.cpp: FLASHINFER_CACHE_SHAPE.
use llumnix_kv.Base.{
  ℕ, Bool, false, ◌&&◌, List, set, u32, ltb, leb, ◌==◌, if◌then◌else◌, Result, ok, ◌>>=◌, ◌>>◌,
  assert, at, index, div, mod_by,
}
use llumnix_kv.Env.{Env}
use llumnix_kv.Types.{WorkerInfo, ReqSendTask, heads_of}
use llumnix_kv.Bounds.{make_ipc_block_bounds}
use llumnix_kv.Shape.{SendBlocks, resize, count}
use llumnix_kv.Shape.Hybrid.Hnd.{parse_flashinfer_hnd_block}
use llumnix_kv.Shape.Hybrid.Parts.{assert_quotient, only_sizes}

-- `std::max(1, n)`
abbrev pub at_least_one : ℕ → ℕ
at_least_one n = if n == 0 then 1 else n

-- The heads of a rank of P, for sizes of the engine that an `int` holds.
unfoldable pub per_tp_kv_heads : WorkerInfo → Result ℕ
per_tp_kv_heads p =
    let heads = heads_of p.num_kv_heads in
    if ltb 0 heads && leb p.engine_tp_size heads
    then div heads p.engine_tp_size
    else ok (at_least_one heads)

-- From the sizes of the only cache tensor on.
unfoldable pub flashinfer_send :
    Env → WorkerInfo → WorkerInfo → ℕ → ℕ → ReqSendTask → SendBlocks → Result SendBlocks
flashinfer_send env p d group_n group_off task send_blocks = do
  sizes ← only_sizes env p d
  src_ntpb ← div sizes.0.1 sizes.0.0
  dst_ntpb ← div sizes.1.1 sizes.1.0
  assert env.asserts (u32 src_ntpb == u32 dst_ntpb)
  src_blocks ← at task.req.src_blocks 0
  dst_blocks ← at task.req.dst_blocks 0
  heads ← per_tp_kv_heads p
  let resized = resize 1 send_blocks
  blocks ← at resized 0
  bounds ← make_ipc_block_bounds env p d 0
  out ←
      parse_flashinfer_hnd_block env sizes.0.0 sizes.0.1 sizes.1.1 (u32 src_ntpb) src_blocks
        dst_blocks task.seen_tokens task.new_tokens group_n group_off heads bounds false blocks
  ok (set resized 0 out)

unfoldable pub vllm_parse_flashinfer_block_send_p_eq_d :
    Env → WorkerInfo → WorkerInfo → List Bool → ℕ → ℕ → ReqSendTask → SendBlocks → Result SendBlocks
vllm_parse_flashinfer_block_send_p_eq_d env p d valid_ranks kvt_tp_size kvt_tp_rank task
      send_blocks =
    do
      assert env.asserts (kvt_tp_size == d.engine_tp_size)
      flashinfer_send env p d 1 0 task send_blocks

-- What a selected rank sends.
unfoldable pub flashinfer_gt_selected :
    Env → WorkerInfo → WorkerInfo → List Bool → ℕ → ℕ → ReqSendTask → SendBlocks → Result SendBlocks
flashinfer_gt_selected env p d valid_ranks kvt_tp_size kvt_tp_rank task send_blocks = do
  group_n ← div (count valid_ranks) d.engine_tp_size
  group_off ← mod_by kvt_tp_rank group_n
  assert env.asserts (ltb d.engine_tp_size kvt_tp_size)
  assert_quotient env kvt_tp_rank group_n d.worker_tp_rank
  flashinfer_send env p d group_n group_off task send_blocks

unfoldable pub vllm_parse_flashinfer_block_send_p_gt_d :
    Env → WorkerInfo → WorkerInfo → List Bool → ℕ → ℕ → ReqSendTask → SendBlocks → Result SendBlocks
vllm_parse_flashinfer_block_send_p_gt_d env p d valid_ranks kvt_tp_size kvt_tp_rank task
      send_blocks =
    do
      selected ← index valid_ranks p.worker_tp_rank
      if selected
          then flashinfer_gt_selected env p d valid_ranks kvt_tp_size kvt_tp_rank task send_blocks
          else ok send_blocks
