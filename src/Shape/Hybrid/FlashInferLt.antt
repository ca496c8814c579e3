-- ===== src/Shape/Hybrid/FlashInferLt.antt =====
-- kvtransfer/src/parse_block_qwen3_next_flashinfer.cpp: QWEN3_NEXT_FLASHINFER_CACHE_SHAPE for P < D.
use llumnix_kv.Base.{
  suc, ◌^◌, ℕ, suc, ◌+◌, ◌-◌, ◌*◌, ◌/◌, Bool, true, ◌&&◌, List, min, length, set, u32, u64, ltb,
  leb, ◌==◌, if◌then◌else◌, Result, ok, ◌>>=◌, ◌>>◌, assert, at, div, mod_by, while, for_range,
}
use llumnix_kv.Env.{Env}
use llumnix_kv.Types.{IpcBlock, WorkerInfo, ReqSendTask, ℤ, pos, negsuc, heads_of}
use llumnix_kv.Bounds.{IpcBlockBounds, make_ipc_block_bounds}
use llumnix_kv.Shape.{SendBlocks, resize}
use llumnix_kv.Shape.Hybrid.AttnFill.{Position}
use llumnix_kv.Shape.Hybrid.Hnd.{
  KernelSizes, head_dim_of, parse_hybrid_flashinfer_hnd_block, zero_head,
}
use llumnix_kv.Shape.Hybrid.Parts.{
  PageGroup, attn_group_of, same_indexer, aligned_group, aligned_indexer, indexer_lt,
  last_states_lt, group_lt, only_sizes, slice_of,
}

-- One round of the loop of `fill_tail_hybrid_flashinfer_hnd_block_p_lt_d`.
unfoldable pub hnd_tail_step :
    Env → ℕ → ℕ → ℕ → ℕ → ℕ → ℕ → List ℕ → ℕ → IpcBlockBounds → Position → Result Position
hnd_tail_step env p_block_size d_block_size dst_ntpb head_dim heads zero_src_off dst_blocks
      end_tokens bounds s =
    do
      blk_idx ← div s.dst_pos dst_ntpb
      token_idx ← mod_by s.dst_pos dst_ntpb
      let taken = min (dst_ntpb - token_idx) (end_tokens - s.dst_pos)
      assert env.asserts (ltb blk_idx (length dst_blocks))
      d ← at dst_blocks blk_idx
      blocks ←
          for_range heads 0
            (zero_head env bounds zero_src_off (u64 (d * d_block_size + token_idx * head_dim))
              (u64 (dst_ntpb * head_dim)) (d_block_size / 2) (u64 (taken * head_dim)) p_block_size)
            s.blocks
      ok (record { dst_pos = u32 (s.dst_pos + taken); blocks = blocks })

unfoldable pub hnd_tail_tokens :
    Env
    → ℕ
    → ℕ
    → ℕ
    → ℕ
    → ℕ
    → List ℕ
    → List ℕ
    → ℕ
    → ℕ
    → IpcBlockBounds
    → List IpcBlock
    → Result (List IpcBlock)
hnd_tail_tokens env p_block_size d_block_size dst_ntpb head_dim heads src_blocks dst_blocks
      total_tokens end_tokens bounds blocks =
    do
      zero_block ← at src_blocks 0
      s ←
          while (suc end_tokens) (λ (s : Position). ltb s.dst_pos end_tokens)
            (hnd_tail_step env p_block_size d_block_size dst_ntpb head_dim heads
              (u64 (zero_block * p_block_size)) dst_blocks end_tokens bounds)
            (record { dst_pos = total_tokens; blocks = blocks })
      ok s.blocks

unfoldable pub fill_tail_hybrid_flashinfer_hnd_block_p_lt_d :
    Env
    → ℕ
    → ℕ
    → ℕ
    → ℕ
    → ℕ
    → List ℕ
    → List ℕ
    → ℕ
    → IpcBlockBounds
    → List IpcBlock
    → Result (List IpcBlock)
fill_tail_hybrid_flashinfer_hnd_block_p_lt_d env p_block_size d_block_size dst_ntpb head_dim heads
      src_blocks dst_blocks total_tokens bounds blocks =
    let end_tokens = u32 (u32 (length dst_blocks) * dst_ntpb) in
    if leb end_tokens total_tokens
    then ok blocks
    else hnd_tail_tokens env p_block_size d_block_size dst_ntpb head_dim heads src_blocks dst_blocks
        total_tokens end_tokens bounds blocks

-- P < D, where the ranks of D hold whole rows of P's.
unfoldable pub hnd_replicated_lt :
    Env
    → WorkerInfo
    → WorkerInfo
    → KernelSizes
    → ReqSendTask
    → IpcBlockBounds
    → List IpcBlock
    → Result (List IpcBlock)
hnd_replicated_lt env src dst k task bounds blocks = do
  assert env.asserts (k.p_block_size == k.d_block_size)
  assert env.asserts (src.indexer_blk_ntpb == dst.indexer_blk_ntpb)
  indexed ← aligned_indexer env src k.p_block_size task bounds blocks
  assert env.asserts (ltb (attn_group_of src) (length task.req.src_blocks))
  assert env.asserts (ltb (attn_group_of src) (length task.req.dst_blocks))
  aligned_group env k.p_block_size task (attn_group_of src) k.p_ntpb bounds indexed

-- The heads of a rank of D, as a `size_t`, for a size of the engine that an `int` holds. A negative
-- number is compared as a `uint32_t`, and divided rounding towards 0.
unfoldable pub dst_heads : ℤ → ℕ → Result ℕ
dst_heads (pos heads) d_tp = if leb d_tp heads then div heads d_tp else ok 1
dst_heads (negsuc n) d_tp =
    if leb d_tp (2 ^ 32 - suc n)
    then (div (suc n) d_tp >>= λ heads. ok (u64 (2 ^ 64 - heads)))
    else ok 1

-- P < D, where each rank of D holds a slice of the row. The two sides are exchanged.
unfoldable pub hnd_sliced_lt :
    Env
    → WorkerInfo
    → WorkerInfo
    → PageGroup
    → KernelSizes
    → ReqSendTask
    → IpcBlockBounds
    → List IpcBlock
    → Result (List IpcBlock)
hnd_sliced_lt env src dst g k task bounds blocks = do
  slice ← slice_of env src dst k.p_token_size k.d_token_size
  assert env.asserts (ltb 0 (heads_of src.num_kv_heads))
  heads ← dst_heads src.num_kv_heads dst.engine_tp_size
  head_dim ← head_dim_of env k.d_token_size heads
  indexed ← indexer_lt env src dst g task bounds blocks
  let group_idx = attn_group_of src
  assert env.asserts (ltb group_idx (length task.req.src_blocks))
  assert env.asserts (ltb group_idx (length task.req.dst_blocks))
  s ← at task.req.src_blocks group_idx
  d ← at task.req.dst_blocks group_idx
  let exchanged : KernelSizes = record {
    p_token_size = k.d_token_size;
    d_token_size = k.p_token_size;
    p_block_size = k.d_block_size;
    d_block_size = k.p_block_size;
    p_ntpb = k.d_ntpb;
    d_ntpb = k.p_ntpb;
    src_kernel_ntpb = k.dst_kernel_ntpb;
    dst_kernel_ntpb = k.src_kernel_ntpb;
  }
  sent ←
      parse_hybrid_flashinfer_hnd_block env exchanged d s task.seen_tokens task.new_tokens slice.0
        slice.1 heads bounds true indexed
  let filled =
      fill_tail_hybrid_flashinfer_hnd_block_p_lt_d env k.p_block_size k.d_block_size k.d_ntpb
        head_dim heads s d (u32 (task.seen_tokens + task.new_tokens)) bounds sent
  if env.pad_last_attn_block && task.reach_last_token then filled else ok sent

unfoldable pub vllm_parse_qwen3_next_flashinfer_block_send_p_lt_d :
    Env → WorkerInfo → WorkerInfo → List Bool → ℕ → ℕ → ReqSendTask → SendBlocks → Result SendBlocks
vllm_parse_qwen3_next_flashinfer_block_send_p_lt_d env src dst valid_ranks kvt_tp_size kvt_tp_rank
      task send_blocks =
    do
      gdn ← group_lt env src dst
      sizes ← only_sizes env src dst
      src_quotient ← div sizes.0.1 sizes.0.0
      dst_quotient ← div sizes.1.1 sizes.1.0
      assert env.asserts (u64 (u32 src_quotient * sizes.0.0) == sizes.0.1)
      assert env.asserts (u64 (u32 dst_quotient * sizes.1.0) == sizes.1.1)
      assert env.asserts (src.attn_kernel_blk_ntpb == u32 src_quotient)
      assert env.asserts (dst.attn_kernel_blk_ntpb == u32 dst_quotient)
      let resized = resize (length src.token_sizes) send_blocks
      blocks ← at resized 0
      bounds ← make_ipc_block_bounds env src dst 0
      assert env.asserts (ltb src.num_gdn_layers (length task.req.src_blocks))
      assert env.asserts (ltb src.num_gdn_layers (length task.req.dst_blocks))
      assert env.asserts (same_indexer src dst)
      let g : PageGroup = record {
        p_block_size = sizes.0.1;
        d_block_size = sizes.1.1;
        group_n = gdn.0;
        group_off = gdn.1;
      }
      let k : KernelSizes = record {
        p_token_size = sizes.0.0;
        d_token_size = sizes.1.0;
        p_block_size = sizes.0.1;
        d_block_size = sizes.1.1;
        p_ntpb = u32 src_quotient;
        d_ntpb = u32 dst_quotient;
        src_kernel_ntpb = src.attn_kernel_blk_ntpb;
        dst_kernel_ntpb = dst.attn_kernel_blk_ntpb;
      }
      let same = hnd_replicated_lt env src dst k task bounds blocks
      let sliced = hnd_sliced_lt env src dst g k task bounds blocks
      attn ← if k.p_token_size == k.d_token_size then same else sliced
      out ← last_states_lt env src g task bounds attn
      ok (set resized 0 out)
