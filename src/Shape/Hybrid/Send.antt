-- ===== src/Shape/Hybrid/Send.antt =====
-- kvtransfer/src/parse_block_qwen3_next.cpp: QWEN3_NEXT_FLASH_CACHE_SHAPE; and
-- kvtransfer/src/parse_block_turboquant.cpp, which sends the same.
use llumnix_kv.Base.{
  ℕ, ◌+◌, ◌*◌, Bool, true, false, ◌&&◌, List, length, set, u32, u64, ltb, ◌==◌, if◌then◌else◌,
  Result, ok, ◌>>=◌, ◌>>◌, assert, at, index, div, mod_by,
}
use llumnix_kv.Env.{Env}
use llumnix_kv.Types.{IpcBlock, WorkerInfo, ReqSendTask, heads_of}
use llumnix_kv.Bounds.{IpcBlockBounds, make_ipc_block_bounds}
use llumnix_kv.Shape.{SendBlocks, resize, sizes_eq, count}
use llumnix_kv.Shape.Hybrid.Attn.{AttnSizes, pack_of, parse_hybrid_attn_block}
use llumnix_kv.Shape.Hybrid.AttnFill.{
  fill_last_hybrid_attn_block, fill_tail_hybrid_attn_block_p_lt_d,
}
use llumnix_kv.Shape.Hybrid.Parts.{
  PageGroup, attn_group_of, attn_group_gt, same_indexer, aligned_group, aligned_indexer, indexer_gt,
  indexer_lt, last_states_eq, last_states_gt, last_states_lt, assert_multiple, group_gt, group_lt,
  only_sizes, slice_of,
}

unfoldable pub vllm_parse_hybrid_block_send_p_eq_d_block_aligned :
    Env → WorkerInfo → WorkerInfo → List Bool → ℕ → ℕ → ReqSendTask → SendBlocks → Result SendBlocks
vllm_parse_hybrid_block_send_p_eq_d_block_aligned env src dst valid_ranks kvt_tp_size kvt_tp_rank
      task send_blocks =
    do
      assert env.asserts (src.engine_tp_size == dst.engine_tp_size)
      assert env.asserts (kvt_tp_size == dst.engine_tp_size)
      assert env.asserts (src.worker_tp_rank == dst.worker_tp_rank)
      assert env.asserts (sizes_eq src.token_sizes dst.token_sizes)
      assert env.asserts (sizes_eq src.block_sizes dst.block_sizes)
      assert env.asserts (length src.token_sizes == length src.block_sizes)
      assert env.asserts (length dst.token_sizes == length dst.block_sizes)
      assert env.asserts (length src.token_sizes == 1)
      assert env.asserts (length src.block_sizes == 1)
      let resized = resize (length src.token_sizes) send_blocks
      blocks ← at resized 0
      bounds ← make_ipc_block_bounds env src dst 0
      let pack = pack_of src.attn_pack_size
      block_size ← at src.block_sizes 0
      token_size ← at src.token_sizes 0
      quotient ← div block_size token_size
      assert_multiple env quotient pack
      attn_ntpb ← div quotient pack
      assert env.asserts (src.attn_kernel_blk_ntpb == dst.attn_kernel_blk_ntpb)
      assert env.asserts (src.indexer_blk_ntpb == dst.indexer_blk_ntpb)
      assert env.asserts (src.attn_pack_size == dst.attn_pack_size)
      indexed ← aligned_indexer env src block_size task bounds blocks
      attn ← aligned_group env block_size task (attn_group_of src) (u32 attn_ntpb) bounds indexed
      out ← last_states_eq env src block_size task bounds attn
      ok (set resized 0 out)

-- The attention of a selected rank, where P has more.
unfoldable pub attn_gt :
    Env → AttnSizes → ReqSendTask → ℕ → ℕ → IpcBlockBounds → List IpcBlock → Result (List IpcBlock)
attn_gt env g task group_idx group_off bounds blocks = do
  s ← at task.req.src_blocks group_idx
  d ← at task.req.dst_blocks group_idx
  sent ←
      parse_hybrid_attn_block env g s d task.seen_tokens task.new_tokens group_off bounds false
        blocks
  let filled =
      fill_last_hybrid_attn_block env g s d (u32 (task.seen_tokens + task.new_tokens)) group_off
        bounds sent
  if env.pad_last_attn_block && task.reach_last_token then filled else ok sent

unfoldable pub do_parse_hybrid_block_send_p_gt_d :
    Env
    → ℕ
    → ℕ
    → ℕ
    → ℕ
    → ℕ
    → ℕ
    → ℕ
    → List Bool
    → WorkerInfo
    → WorkerInfo
    → ReqSendTask
    → IpcBlockBounds
    → List IpcBlock
    → Result (List IpcBlock)
do_parse_hybrid_block_send_p_gt_d env p_token_size d_token_size src_ntpb dst_ntpb attn_group_off
      gdn_group_n gdn_group_off valid_ranks src dst task bounds blocks =
    do
      let g : PageGroup = record {
        p_block_size = u64 (p_token_size * src_ntpb);
        d_block_size = u64 (d_token_size * dst_ntpb);
        group_n = gdn_group_n;
        group_off = gdn_group_off;
      }
      assert env.asserts (pack_of src.attn_pack_size == pack_of dst.attn_pack_size)
      assert env.asserts (ltb src.num_gdn_layers (length task.req.src_blocks))
      assert env.asserts (ltb src.num_gdn_layers (length task.req.dst_blocks))
      states ← last_states_gt env src g task bounds blocks
      assert env.asserts (same_indexer src dst)
      indexed ← indexer_gt env src dst g task bounds states
      let group_idx = attn_group_gt src dst
      assert env.asserts (ltb group_idx (length task.req.src_blocks))
      assert env.asserts (ltb group_idx (length task.req.dst_blocks))
      selected ← index valid_ranks src.worker_tp_rank
      let a : AttnSizes = record {
        src_ntpb = src_ntpb;
        dst_ntpb = dst_ntpb;
        p_token_size = p_token_size;
        d_token_size = d_token_size;
        p_block_size = g.p_block_size;
        d_block_size = g.d_block_size;
        src_kernel_ntpb = src.attn_kernel_blk_ntpb;
        dst_kernel_ntpb = dst.attn_kernel_blk_ntpb;
        attn_pack_size = pack_of src.attn_pack_size;
      }
      if selected then attn_gt env a task group_idx attn_group_off bounds indexed else ok indexed

unfoldable pub vllm_parse_hybrid_block_send_p_gt_d :
    Env → WorkerInfo → WorkerInfo → List Bool → ℕ → ℕ → ReqSendTask → SendBlocks → Result SendBlocks
vllm_parse_hybrid_block_send_p_gt_d env src dst valid_ranks kvt_tp_size kvt_tp_rank task
      send_blocks =
    do
      gdn ← group_gt env src dst
      attn_group_n ← div (count valid_ranks) dst.engine_tp_size
      attn_group_off ← mod_by kvt_tp_rank attn_group_n
      sizes ← only_sizes env src dst
      let p_token_size = sizes.0.0
      let d_token_size = sizes.1.0
      assert env.asserts (d_token_size == u64 (p_token_size * attn_group_n))
      src_quotient ← div sizes.0.1 p_token_size
      dst_quotient ← div sizes.1.1 d_token_size
      assert env.asserts (u64 (u32 src_quotient * p_token_size) == sizes.0.1)
      assert env.asserts (u64 (u32 dst_quotient * d_token_size) == sizes.1.1)
      let resized = resize (length src.token_sizes) send_blocks
      blocks ← at resized 0
      bounds ← make_ipc_block_bounds env src dst 0
      out ←
          do_parse_hybrid_block_send_p_gt_d env p_token_size d_token_size (u32 src_quotient)
            (u32 dst_quotient) attn_group_off gdn.0 gdn.1 valid_ranks src dst task bounds blocks
      ok (set resized 0 out)

-- P < D, where the ranks of D hold whole rows of P's.
unfoldable pub replicated_lt :
    Env
    → WorkerInfo
    → WorkerInfo
    → (ℕ × ℕ) × (ℕ × ℕ)
    → ReqSendTask
    → IpcBlockBounds
    → List IpcBlock
    → Result (List IpcBlock)
replicated_lt env src dst ((p_token_size, p_block_size), (d_token_size, d_block_size)) task bounds
      blocks =
    do
      let pack = pack_of src.attn_pack_size
      assert env.asserts (p_block_size == d_block_size)
      quotient ← div p_block_size p_token_size
      assert_multiple env quotient pack
      attn_ntpb ← div quotient pack
      assert env.asserts (src.attn_kernel_blk_ntpb == dst.attn_kernel_blk_ntpb)
      assert env.asserts (src.indexer_blk_ntpb == dst.indexer_blk_ntpb)
      indexed ← aligned_indexer env src p_block_size task bounds blocks
      aligned_group env p_block_size task (attn_group_of src) (u32 attn_ntpb) bounds indexed

-- P < D, where each rank of D holds a slice of the row. The two sides are exchanged.
unfoldable pub sliced_lt :
    Env
    → WorkerInfo
    → WorkerInfo
    → PageGroup
    → (ℕ × ℕ) × (ℕ × ℕ)
    → ReqSendTask
    → IpcBlockBounds
    → List IpcBlock
    → Result (List IpcBlock)
sliced_lt env src dst g ((p_token_size, p_block_size), (d_token_size, d_block_size)) task bounds
      blocks =
    do
      let pack = pack_of src.attn_pack_size
      slice ← slice_of env src dst p_token_size d_token_size
      assert_multiple env (heads_of src.num_kv_heads) src.engine_tp_size
      src_quotient ← div p_block_size p_token_size
      dst_quotient ← div d_block_size d_token_size
      assert env.asserts (u64 (u32 src_quotient * p_token_size) == p_block_size)
      assert env.asserts (u64 (u32 dst_quotient * d_token_size) == d_block_size)
      indexed ← indexer_lt env src dst g task bounds blocks
      let group_idx = attn_group_of src
      assert env.asserts (ltb group_idx (length task.req.src_blocks))
      assert env.asserts (ltb group_idx (length task.req.dst_blocks))
      s ← at task.req.src_blocks group_idx
      d ← at task.req.dst_blocks group_idx
      let a : AttnSizes = record {
        src_ntpb = u32 dst_quotient;
        dst_ntpb = u32 src_quotient;
        p_token_size = d_token_size;
        d_token_size = p_token_size;
        p_block_size = d_block_size;
        d_block_size = p_block_size;
        src_kernel_ntpb = dst.attn_kernel_blk_ntpb;
        dst_kernel_ntpb = src.attn_kernel_blk_ntpb;
        attn_pack_size = pack;
      }
      sent ←
          parse_hybrid_attn_block env a d s task.seen_tokens task.new_tokens slice.1 bounds true
            indexed
      let filled =
          fill_tail_hybrid_attn_block_p_lt_d env p_block_size d_block_size d_token_size
            (u32 dst_quotient) dst.attn_kernel_blk_ntpb pack s d
            (u32 (task.seen_tokens + task.new_tokens)) bounds sent
      if env.pad_last_attn_block && task.reach_last_token then filled else ok sent

unfoldable pub vllm_parse_hybrid_block_send_p_lt_d :
    Env → WorkerInfo → WorkerInfo → List Bool → ℕ → ℕ → ReqSendTask → SendBlocks → Result SendBlocks
vllm_parse_hybrid_block_send_p_lt_d env src dst valid_ranks kvt_tp_size kvt_tp_rank task
      send_blocks =
    do
      gdn ← group_lt env src dst
      sizes ← only_sizes env src dst
      let g : PageGroup = record {
        p_block_size = sizes.0.1;
        d_block_size = sizes.1.1;
        group_n = gdn.0;
        group_off = gdn.1;
      }
      let resized = resize (length src.token_sizes) send_blocks
      blocks ← at resized 0
      bounds ← make_ipc_block_bounds env src dst 0
      assert env.asserts (same_indexer src dst)
      assert env.asserts (src.attn_pack_size == dst.attn_pack_size)
      let same = replicated_lt env src dst sizes task bounds blocks
      let sliced = sliced_lt env src dst g sizes task bounds blocks
      attn ← if sizes.0.0 == sizes.1.0 then same else sliced
      out ← last_states_lt env src g task bounds attn
      ok (set resized 0 out)

unfoldable pub turboquant_parse_block_send_p_eq_d :
    Env → WorkerInfo → WorkerInfo → List Bool → ℕ → ℕ → ReqSendTask → SendBlocks → Result SendBlocks
turboquant_parse_block_send_p_eq_d = vllm_parse_hybrid_block_send_p_eq_d_block_aligned

unfoldable pub turboquant_parse_block_send_p_gt_d :
    Env → WorkerInfo → WorkerInfo → List Bool → ℕ → ℕ → ReqSendTask → SendBlocks → Result SendBlocks
turboquant_parse_block_send_p_gt_d = vllm_parse_hybrid_block_send_p_gt_d
