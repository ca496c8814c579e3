-- ===== src/Shape/KimiK3.antt =====
-- kvtransfer/src/parse_block_kimi_k3.cpp: KIMI_K3_MLA_CACHE_SHAPE, an MLA cache that every rank holds,
-- in pages of the size of the recurrent states, followed by those states.
use llumnix_kv.Base.{
  ℕ, suc, ◌+◌, ◌-◌, ◌*◌, Bool, not, ◌||◌, List, min, length, set, u32, u64, ltb, leb, ◌==◌,
  if◌then◌else◌, Result, ok, ◌>>=◌, ◌>>◌, assert, at, div, mod_by, while, for_range,
}
use llumnix_kv.Env.{Env}
use llumnix_kv.Types.{IpcBlock, WorkerInfo, ReqSendTask}
use llumnix_kv.Bounds.{IpcBlockBounds, make_ipc_block_bounds, append_ipc_block_checked}
use llumnix_kv.Parse.{Cursor, tokens_left, emit_zero_fill_segments}
use llumnix_kv.Shape.{SendBlocks, resize}
use llumnix_kv.Shape.KdaSend.{
  parse_kda_block_send_p_eq_d, parse_kda_block_send_p_gt_d, parse_kda_block_send_p_lt_d,
}

-- The sizes that `parse_replicated_mla_blocks` computes.
pub record Pages : Type 0 where
  pub token_size : ℕ
  pub src_manager_ntpb : ℕ
  pub dst_manager_ntpb : ℕ
  pub kernel_ntpb : ℕ
  pub kernel_mla_page_size : ℕ
  pub src_physical_page_size : ℕ
  pub dst_physical_page_size : ℕ

-- One round of the loop for equal sizes.
unfoldable pub mla_block :
    Pages → IpcBlockBounds → List ℕ → List ℕ → ℕ → List IpcBlock → Result (List IpcBlock)
mla_block g bounds src_blocks dst_blocks block_idx blocks = do
  s ← at src_blocks block_idx
  d ← at dst_blocks block_idx
  append_ipc_block_checked blocks bounds (u64 (s * g.src_physical_page_size))
      (u64 (d * g.dst_physical_page_size)) (u64 (g.src_manager_ntpb * g.token_size))

-- `task.end_tokens()`.
abbrev pub end_of : ReqSendTask → ℕ
end_of task = u32 (task.seen_tokens + task.new_tokens)

unfoldable pub mla_eq :
    Env
    → Pages
    → IpcBlockBounds
    → ReqSendTask
    → List ℕ
    → List ℕ
    → List IpcBlock
    → Result (List IpcBlock)
mla_eq env g bounds task src_blocks dst_blocks blocks = do
  assert env.asserts (g.src_manager_ntpb == g.dst_manager_ntpb)
  assert env.asserts (length src_blocks == length dst_blocks)
  first_block ← div task.seen_tokens g.src_manager_ntpb
  whole_blocks ← div (end_of task) g.src_manager_ntpb
  let end_block = if task.reach_last_token then length src_blocks else whole_blocks
  assert env.asserts (leb first_block end_block)
  assert env.asserts (leb end_block (length src_blocks))
  for_range (end_block - first_block) first_block (mla_block g bounds src_blocks dst_blocks) blocks

-- The copy of one kernel page.
unfoldable pub mla_page :
    Pages
    → IpcBlockBounds
    → List ℕ
    → List ℕ
    → ℕ
    → ℕ
    → ℕ
    → ℕ
    → List IpcBlock
    → Result (List IpcBlock)
mla_page g bounds src_blocks dst_blocks src_block_idx dst_block_idx src_kernel_idx dst_kernel_idx
      blocks =
    do
      s ← at src_blocks src_block_idx
      d ← at dst_blocks dst_block_idx
      append_ipc_block_checked blocks bounds
          (u64 (s * g.src_physical_page_size + src_kernel_idx * g.kernel_mla_page_size))
          (u64 (d * g.dst_physical_page_size + dst_kernel_idx * g.kernel_mla_page_size))
          g.kernel_mla_page_size

-- One round of the loop for unequal sizes.
unfoldable pub mla_step :
    Env → Pages → IpcBlockBounds → ReqSendTask → List ℕ → List ℕ → Cursor → Result Cursor
mla_step env g bounds task src_blocks dst_blocks c = do
  src_block_idx ← div c.wrote_tokens g.src_manager_ntpb
  dst_block_idx ← div c.wrote_tokens g.dst_manager_ntpb
  src_token ← mod_by c.wrote_tokens g.src_manager_ntpb
  dst_token ← mod_by c.wrote_tokens g.dst_manager_ntpb
  src_kernel_idx ← div src_token g.kernel_ntpb
  dst_kernel_idx ← div dst_token g.kernel_ntpb
  token_idx ← mod_by c.wrote_tokens g.kernel_ntpb
  assert env.asserts (ltb src_block_idx (length src_blocks))
  assert env.asserts (ltb dst_block_idx (length dst_blocks))
  let taken = min (g.kernel_ntpb - token_idx) c.left_tokens
  let emit = taken == g.kernel_ntpb || task.reach_last_token || token_idx + taken == g.kernel_ntpb
  let page =
      mla_page g bounds src_blocks dst_blocks src_block_idx dst_block_idx src_kernel_idx
        dst_kernel_idx c.blocks
  blocks ← if emit then page else ok c.blocks
  ok (record {
    wrote_tokens = u32 (c.wrote_tokens + taken);
    left_tokens = c.left_tokens - taken;
    blocks = blocks;
  })

-- The variables of the loop that fills the rest of D's pages.
pub record Tail : Type 0 where
  pub dst_pos : ℕ
  pub blocks : List IpcBlock

unfoldable pub tail_step : Env → Pages → IpcBlockBounds → List ℕ → ℕ → ℕ → Tail → Result Tail
tail_step env g bounds dst_blocks fill_src_off dst_capacity_tokens s = do
  dst_block_idx ← div s.dst_pos g.dst_manager_ntpb
  token_in_block ← mod_by s.dst_pos g.dst_manager_ntpb
  let taken = min (g.dst_manager_ntpb - token_in_block) (dst_capacity_tokens - s.dst_pos)
  d ← at dst_blocks dst_block_idx
  blocks ←
      emit_zero_fill_segments env fill_src_off
        (u64 (d * g.dst_physical_page_size + token_in_block * g.token_size))
        (u64 (taken * g.token_size)) g.src_physical_page_size bounds s.blocks
  ok (record { dst_pos = u64 (s.dst_pos + taken); blocks = blocks })

unfoldable pub fill_tail :
    Env → Pages → IpcBlockBounds → List ℕ → List ℕ → ℕ → ℕ → List IpcBlock → Result (List IpcBlock)
fill_tail env g bounds src_blocks dst_blocks total_tokens dst_capacity_tokens blocks = do
  assert env.asserts (ltb 0 (length src_blocks))
  first ← at src_blocks 0
  s ←
      while (suc dst_capacity_tokens) (λ (s : Tail). ltb s.dst_pos dst_capacity_tokens)
        (tail_step env g bounds dst_blocks (u64 (first * g.src_physical_page_size))
          dst_capacity_tokens)
        (record { dst_pos = total_tokens; blocks = blocks })
  ok s.blocks

unfoldable pub mla_ne :
    Env
    → Pages
    → IpcBlockBounds
    → ReqSendTask
    → List ℕ
    → List ℕ
    → List IpcBlock
    → Result (List IpcBlock)
mla_ne env g bounds task src_blocks dst_blocks blocks = do
  c ←
      while (suc task.new_tokens) tokens_left (mla_step env g bounds task src_blocks dst_blocks)
        (record { wrote_tokens = task.seen_tokens; left_tokens = task.new_tokens; blocks = blocks })
  let total_tokens = u64 (task.seen_tokens + task.new_tokens)
  let dst_capacity_tokens = u64 (length dst_blocks * g.dst_manager_ntpb)
  let filled =
      fill_tail env g bounds src_blocks dst_blocks total_tokens dst_capacity_tokens c.blocks
  if not env.pad_last_attn_block
        || not task.reach_last_token
        || leb dst_capacity_tokens total_tokens
      then ok c.blocks
      else filled

-- Of a selected rank.
unfoldable pub mla_selected :
    Env → WorkerInfo → WorkerInfo → ReqSendTask → SendBlocks → Result SendBlocks
mla_selected env src dst task send_blocks = do
  assert env.asserts (length src.block_sizes == 1)
  assert env.asserts (length dst.block_sizes == 1)
  assert env.asserts (length src.token_sizes == 1)
  assert env.asserts (length dst.token_sizes == 1)
  assert env.asserts (ltb 0 src.hybrid_attn_token_size)
  assert env.asserts (ltb 0 src.attn_kernel_blk_ntpb)
  assert env.asserts (src.attn_kernel_blk_ntpb == dst.attn_kernel_blk_ntpb)
  assert env.asserts (src.attn_pack_size == 1)
  assert env.asserts (dst.attn_pack_size == 1)
  assert env.asserts (src.hybrid_attn_token_size == dst.hybrid_attn_token_size)
  assert env.asserts (length task.req.src_blocks == src.num_gdn_layers + 1)
  assert env.asserts (length task.req.dst_blocks == src.num_gdn_layers + 1)
  src_blocks ← at task.req.src_blocks src.num_gdn_layers
  dst_blocks ← at task.req.dst_blocks src.num_gdn_layers
  src_logical ← at src.block_sizes 0
  dst_logical ← at dst.block_sizes 0
  src_registered ← at src.token_sizes 0
  dst_registered ← at dst.token_sizes 0
  assert env.asserts (ltb 0 src_registered)
  assert env.asserts (ltb 0 dst_registered)
  src_rest ← mod_by src_logical src_registered
  assert env.asserts (src_rest == 0)
  dst_rest ← mod_by dst_logical dst_registered
  assert env.asserts (dst_rest == 0)
  src_quotient ← div src_logical src_registered
  dst_quotient ← div dst_logical dst_registered
  let kernel_ntpb = src.attn_kernel_blk_ntpb
  let g : Pages = record {
    token_size = src.hybrid_attn_token_size;
    src_manager_ntpb = u32 src_quotient;
    dst_manager_ntpb = u32 dst_quotient;
    kernel_ntpb = kernel_ntpb;
    kernel_mla_page_size = u64 (kernel_ntpb * src.hybrid_attn_token_size);
    src_physical_page_size = if src.kda_page_stride == 0 then src_logical else src.kda_page_stride;
    dst_physical_page_size = if dst.kda_page_stride == 0 then dst_logical else dst.kda_page_stride;
  }
  assert env.asserts (ltb 0 g.src_manager_ntpb)
  assert env.asserts (ltb 0 g.dst_manager_ntpb)
  src_pages ← if env.asserts then mod_by g.src_manager_ntpb kernel_ntpb else ok 0
  assert env.asserts (src_pages == 0)
  dst_pages ← if env.asserts then mod_by g.dst_manager_ntpb kernel_ntpb else ok 0
  assert env.asserts (dst_pages == 0)
  assert env.asserts (leb (u64 (g.src_manager_ntpb * g.token_size)) g.src_physical_page_size)
  assert env.asserts (leb (u64 (g.dst_manager_ntpb * g.token_size)) g.dst_physical_page_size)
  let resized = resize 1 send_blocks
  blocks ← at resized 0
  bounds ← make_ipc_block_bounds env src dst 0
  let equal = mla_eq env g bounds task src_blocks dst_blocks blocks
  let unequal = mla_ne env g bounds task src_blocks dst_blocks blocks
  out ← if src.engine_tp_size == dst.engine_tp_size then equal else unequal
  ok (set resized 0 out)

-- `bitset::test` throws out of range.
unfoldable pub parse_replicated_mla_blocks :
    Env → WorkerInfo → WorkerInfo → List Bool → ReqSendTask → SendBlocks → Result SendBlocks
parse_replicated_mla_blocks env src dst valid_ranks task send_blocks = do
  selected ← at valid_ranks src.worker_tp_rank
  if selected then mla_selected env src dst task send_blocks else ok send_blocks

unfoldable pub parse_kimi_k3_mla_block_send_p_eq_d :
    Env → WorkerInfo → WorkerInfo → List Bool → ℕ → ℕ → ReqSendTask → SendBlocks → Result SendBlocks
parse_kimi_k3_mla_block_send_p_eq_d env src dst valid_ranks kvt_tp_size kvt_tp_rank task
      send_blocks =
    do
      assert env.asserts (src.engine_tp_size == dst.engine_tp_size)
      assert env.asserts (src.worker_tp_rank == dst.worker_tp_rank)
      sent ← parse_replicated_mla_blocks env src dst valid_ranks task send_blocks
      parse_kda_block_send_p_eq_d env src dst valid_ranks kvt_tp_size kvt_tp_rank task sent

unfoldable pub parse_kimi_k3_mla_block_send_p_gt_d :
    Env → WorkerInfo → WorkerInfo → List Bool → ℕ → ℕ → ReqSendTask → SendBlocks → Result SendBlocks
parse_kimi_k3_mla_block_send_p_gt_d env src dst valid_ranks kvt_tp_size kvt_tp_rank task
      send_blocks =
    do
      assert env.asserts (ltb dst.engine_tp_size src.engine_tp_size)
      sent ← parse_replicated_mla_blocks env src dst valid_ranks task send_blocks
      parse_kda_block_send_p_gt_d env src dst valid_ranks kvt_tp_size kvt_tp_rank task sent

unfoldable pub parse_kimi_k3_mla_block_send_p_lt_d :
    Env → WorkerInfo → WorkerInfo → List Bool → ℕ → ℕ → ReqSendTask → SendBlocks → Result SendBlocks
parse_kimi_k3_mla_block_send_p_lt_d env src dst valid_ranks kvt_tp_size kvt_tp_rank task
      send_blocks =
    do
      assert env.asserts (ltb src.engine_tp_size dst.engine_tp_size)
      sent ← parse_replicated_mla_blocks env src dst valid_ranks task send_blocks
      parse_kda_block_send_p_lt_d env src dst valid_ranks kvt_tp_size kvt_tp_rank task sent
