-- ===== src/Shape/Hybrid/FlashInferSend.antt =====
-- kvtransfer/src/parse_block_qwen3_next_flashinfer.cpp: QWEN3_NEXT_FLASHINFER_CACHE_SHAPE for P = D and P > D.
use llumnix_kv.Base.{
  ℕ, ◌+◌, ◌*◌, Bool, false, ◌&&◌, List, length, set, u32, u64, ltb, ◌==◌, if◌then◌else◌, Result, ok,
  ◌>>=◌, ◌>>◌, assert, at, index, div, mod_by,
}
use llumnix_kv.Env.{Env}
use llumnix_kv.Types.{IpcBlock, WorkerInfo, ReqSendTask, heads_of}
use llumnix_kv.Bounds.{IpcBlockBounds, make_ipc_block_bounds}
use llumnix_kv.Shape.{SendBlocks, resize, sizes_eq, count}
use llumnix_kv.Shape.Hybrid.Hnd.{
  KernelSizes, parse_hybrid_flashinfer_hnd_block, fill_last_hybrid_flashinfer_hnd_block,
}
use llumnix_kv.Shape.Hybrid.FlashInfer.{at_least_one}
use llumnix_kv.Shape.Hybrid.Parts.{
  PageGroup, attn_group_of, attn_group_gt, same_indexer, aligned_group, aligned_indexer, indexer_gt,
  last_states_eq, last_states_gt, group_gt, only_sizes,
}

-- The heads of a rank, at least 1, for sizes of the engine that an `int` holds.
unfoldable pub heads_per_rank : WorkerInfo → Result ℕ
heads_per_rank info =
    div (heads_of info.num_kv_heads) info.engine_tp_size >>= λ n. ok (at_least_one n)

unfoldable pub vllm_parse_qwen3_next_flashinfer_block_send_p_eq_d :
    Env → WorkerInfo → WorkerInfo → List Bool → ℕ → ℕ → ReqSendTask → SendBlocks → Result SendBlocks
vllm_parse_qwen3_next_flashinfer_block_send_p_eq_d env src dst valid_ranks kvt_tp_size kvt_tp_rank
      task send_blocks =
    do
      assert env.asserts (src.engine_tp_size == dst.engine_tp_size)
      assert env.asserts (kvt_tp_size == dst.engine_tp_size)
      assert env.asserts (src.worker_tp_rank == dst.worker_tp_rank)
      assert env.asserts (sizes_eq src.token_sizes dst.token_sizes)
      assert env.asserts (sizes_eq src.block_sizes dst.block_sizes)
      sizes ← only_sizes env src dst
      quotient ← div sizes.0.1 sizes.0.0
      let ntpb = u32 quotient
      assert env.asserts (u64 (ntpb * sizes.0.0) == sizes.0.1)
      assert env.asserts (src.attn_kernel_blk_ntpb == ntpb)
      assert env.asserts (dst.attn_kernel_blk_ntpb == ntpb)
      let resized = resize (length src.token_sizes) send_blocks
      blocks ← at resized 0
      bounds ← make_ipc_block_bounds env src dst 0
      assert env.asserts (ltb src.num_gdn_layers (length task.req.src_blocks))
      assert env.asserts (ltb src.num_gdn_layers (length task.req.dst_blocks))
      assert env.asserts (src.indexer_blk_ntpb == dst.indexer_blk_ntpb)
      indexed ← aligned_indexer env src sizes.0.1 task bounds blocks
      assert env.asserts (ltb (attn_group_of src) (length task.req.src_blocks))
      assert env.asserts (ltb (attn_group_of src) (length task.req.dst_blocks))
      attn ← aligned_group env sizes.0.1 task (attn_group_of src) ntpb bounds indexed
      out ← last_states_eq env src sizes.0.1 task bounds attn
      ok (set resized 0 out)

-- The attention of a selected rank, where P has more.
unfoldable pub hnd_gt :
    Env
    → KernelSizes
    → ReqSendTask
    → ℕ
    → ℕ
    → ℕ
    → ℕ
    → IpcBlockBounds
    → List IpcBlock
    → Result (List IpcBlock)
hnd_gt env k task group_idx group_n group_off heads bounds blocks = do
  s ← at task.req.src_blocks group_idx
  d ← at task.req.dst_blocks group_idx
  sent ←
      parse_hybrid_flashinfer_hnd_block env k s d task.seen_tokens task.new_tokens group_n group_off
        heads bounds false blocks
  let filled =
      fill_last_hybrid_flashinfer_hnd_block env k s d (u32 (task.seen_tokens + task.new_tokens))
        group_off heads bounds sent
  if env.pad_last_attn_block && task.reach_last_token then filled else ok sent

unfoldable pub vllm_parse_qwen3_next_flashinfer_block_send_p_gt_d :
    Env → WorkerInfo → WorkerInfo → List Bool → ℕ → ℕ → ReqSendTask → SendBlocks → Result SendBlocks
vllm_parse_qwen3_next_flashinfer_block_send_p_gt_d env src dst valid_ranks kvt_tp_size kvt_tp_rank
      task send_blocks =
    do
      gdn ← group_gt env src dst
      attn_group_n ← div (count valid_ranks) dst.engine_tp_size
      attn_group_off ← if ltb 0 attn_group_n then mod_by kvt_tp_rank attn_group_n else ok 0
      sizes ← only_sizes env src dst
      heads ← heads_per_rank src
      src_quotient ← div sizes.0.1 sizes.0.0
      dst_quotient ← div sizes.1.1 sizes.1.0
      assert env.asserts (u64 (u32 src_quotient * sizes.0.0) == sizes.0.1)
      assert env.asserts (u64 (u32 dst_quotient * sizes.1.0) == sizes.1.1)
      assert env.asserts (src.attn_kernel_blk_ntpb == u32 src_quotient)
      assert env.asserts (dst.attn_kernel_blk_ntpb == u32 dst_quotient)
      let resized = resize (length src.token_sizes) send_blocks
      blocks ← at resized 0
      bounds ← make_ipc_block_bounds env src dst 0
      let g : PageGroup = record {
        p_block_size = sizes.0.1;
        d_block_size = sizes.1.1;
        group_n = gdn.0;
        group_off = gdn.1;
      }
      assert env.asserts (ltb src.num_gdn_layers (length task.req.src_blocks))
      assert env.asserts (ltb src.num_gdn_layers (length task.req.dst_blocks))
      assert env.asserts (same_indexer src dst)
      states ← last_states_gt env src g task bounds blocks
      indexed ← indexer_gt env src dst g task bounds states
      let group_idx = attn_group_gt src dst
      assert env.asserts (ltb group_idx (length task.req.src_blocks))
      assert env.asserts (ltb group_idx (length task.req.dst_blocks))
      selected ← index valid_ranks src.worker_tp_rank
      let k : KernelSizes = record {
        p_token_size = sizes.0.0;
        d_token_size = sizes.1.0;
        p_block_size = sizes.0.1;
        d_block_size = sizes.1.1;
        p_ntpb = u32 src_quotient;
        d_ntpb = u32 dst_quotient;
        src_kernel_ntpb = src.attn_kernel_blk_ntpb;
        dst_kernel_ntpb = dst.attn_kernel_blk_ntpb;
      }
      let sent = hnd_gt env k task group_idx attn_group_n attn_group_off heads bounds indexed
      out ← if selected then sent else ok indexed
      ok (set resized 0 out)
