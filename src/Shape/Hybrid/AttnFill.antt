-- ===== src/Shape/Hybrid/AttnFill.antt =====
-- kvtransfer/src/parse_block_qwen3_next.cpp: the zeros for the tokens of D's attention blocks that the
-- request has no tokens for.
use llumnix_kv.Base.{
  ℕ, suc, ◌+◌, ◌-◌, ◌*◌, ◌/◌, List, min, length, u32, u64, ltb, leb, ◌==◌, if◌then◌else◌, Result,
  ok, ◌>>=◌, ◌>>◌, assert, at, div, mod_by, while, for_range,
}
use llumnix_kv.Env.{Env}
use llumnix_kv.Types.{IpcBlock}
use llumnix_kv.Bounds.{IpcBlockBounds}
use llumnix_kv.Parse.{emit_zero_fill_segments}
use llumnix_kv.Shape.Hybrid.Attn.{
  AttnSizes, d_kernel_blk_size, pack_of, Spot, plain_spot, packed_spot,
}

-- The variables of the loop of `fill_last_hybrid_attn_block`.
pub record LastFill : Type 0 where
  pub dst_pos : ℕ
  pub src_pos : ℕ
  pub to_fill : ℕ
  pub blocks : List IpcBlock

-- A K and a V slot of `length` bytes, at `dk_off`.
unfoldable pub zero_pair :
    Env → ℕ → ℕ → ℕ → ℕ → ℕ → IpcBlockBounds → List IpcBlock → Result (List IpcBlock)
zero_pair env zero_src_off kernel_size dk_off length max_seg bounds blocks = do
  ks ← emit_zero_fill_segments env zero_src_off dk_off length max_seg bounds blocks
  emit_zero_fill_segments env zero_src_off (u64 (dk_off + kernel_size / 2)) length max_seg bounds ks

-- One token.
unfoldable pub zero_token :
    Env → AttnSizes → IpcBlockBounds → ℕ → ℕ → ℕ → ℕ → ℕ → List IpcBlock → Result (List IpcBlock)
zero_token env g bounds zero_src_off group_off d_kernel_off token_idx_base idx blocks =
    let p_step = g.p_token_size / 2 in
    let d_step = g.d_token_size / 2 in
    zero_pair env zero_src_off (d_kernel_blk_size g)
      (u64 (d_kernel_off + u32 (token_idx_base + idx) * d_step + group_off * p_step)) p_step
      g.p_block_size bounds blocks

-- The tokens of a round, of layer `sub`.
unfoldable pub zero_sub :
    Env
    → AttnSizes
    → IpcBlockBounds
    → ℕ
    → ℕ
    → ℕ
    → Spot
    → ℕ
    → ℕ
    → List IpcBlock
    → Result (List IpcBlock)
zero_sub env g bounds zero_src_off group_off d_blk_off d taken sub blocks =
    for_range taken 0
      (zero_token env g bounds zero_src_off group_off
        (u64 (d_blk_off + d.kernel_blk_off_base + sub * d_kernel_blk_size g)) d.token_idx_base)
      blocks

unfoldable pub fill_last_step :
    Env → AttnSizes → ℕ → ℕ → IpcBlockBounds → ℕ → ℕ → List ℕ → LastFill → Result LastFill
fill_last_step env g per_src per_dst bounds zero_src_off group_off dst_blocks f = do
  let pack = pack_of g.attn_pack_size
  p_blk_idx ← div f.src_pos (if pack == 1 then g.src_ntpb else per_src)
  p_token_idx_base ← mod_by f.src_pos g.src_kernel_ntpb
  d ←
      if pack == 1
      then plain_spot g.dst_ntpb g.dst_kernel_ntpb (d_kernel_blk_size g) f.dst_pos
      else packed_spot per_dst g.dst_kernel_ntpb (d_kernel_blk_size g) pack f.dst_pos
  assert env.asserts (p_blk_idx == 0)
  assert env.asserts (ltb d.blk_idx (length dst_blocks))
  d_block ← at dst_blocks d.blk_idx
  let taken =
      min (g.src_kernel_ntpb - p_token_idx_base)
        (min (g.dst_kernel_ntpb - d.token_idx_base) f.to_fill)
  blocks ←
      for_range pack 0
        (zero_sub env g bounds zero_src_off group_off (u64 (d_block * g.d_block_size)) d taken)
        f.blocks
  ok (record {
    dst_pos = u32 (f.dst_pos + taken);
    src_pos = u32 (f.src_pos + taken);
    to_fill = f.to_fill - taken;
    blocks = blocks;
  })

-- Where the last block is not full.
unfoldable pub fill_last_tokens :
    Env
    → AttnSizes
    → ℕ
    → ℕ
    → List ℕ
    → List ℕ
    → ℕ
    → ℕ
    → ℕ
    → IpcBlockBounds
    → List IpcBlock
    → Result (List IpcBlock)
fill_last_tokens env g per_src per_dst src_blocks dst_blocks total_tokens filled group_off bounds
      blocks =
    do
      assert env.asserts (g.p_token_size / 2 * 2 == g.p_token_size)
      assert env.asserts (g.d_token_size / 2 * 2 == g.d_token_size)
      zero_block ← at src_blocks 0
      f ←
          while (suc (per_dst - filled)) (λ (f : LastFill). ltb 0 f.to_fill)
            (fill_last_step env g per_src per_dst bounds (u64 (zero_block * g.p_block_size))
              group_off dst_blocks)
            (record {
              dst_pos = total_tokens;
              src_pos = 0;
              to_fill = per_dst - filled;
              blocks = blocks;
            })
      ok f.blocks

unfoldable pub fill_last_some :
    Env
    → AttnSizes
    → List ℕ
    → List ℕ
    → ℕ
    → ℕ
    → IpcBlockBounds
    → List IpcBlock
    → Result (List IpcBlock)
fill_last_some env g src_blocks dst_blocks total_tokens group_off bounds blocks = do
  let pack = pack_of g.attn_pack_size
  per_src ← if pack == 1 then ok g.src_ntpb else div g.src_ntpb pack
  per_dst ← if pack == 1 then ok g.dst_ntpb else div g.dst_ntpb pack
  assert env.asserts (per_src * pack == g.src_ntpb)
  assert env.asserts (per_dst * pack == g.dst_ntpb)
  filled ← mod_by total_tokens per_dst
  let some_left =
      fill_last_tokens env g per_src per_dst src_blocks dst_blocks total_tokens filled group_off
        bounds blocks
  if filled == 0 then ok blocks else some_left

unfoldable pub fill_last_hybrid_attn_block :
    Env
    → AttnSizes
    → List ℕ
    → List ℕ
    → ℕ
    → ℕ
    → IpcBlockBounds
    → List IpcBlock
    → Result (List IpcBlock)
fill_last_hybrid_attn_block env g src_blocks dst_blocks total_tokens group_off bounds blocks =
    if total_tokens == 0
    then ok blocks
    else fill_last_some env g src_blocks dst_blocks total_tokens group_off bounds blocks

-- The sizes that `fill_tail_hybrid_attn_block_p_lt_d` is given or computes.
pub record TailSizes : Type 0 where
  pub p_block_size : ℕ
  pub d_block_size : ℕ
  pub d_token_size : ℕ
  pub kernel_ntpb : ℕ
  pub pack : ℕ
  pub per_layer : ℕ
  pub end_tokens : ℕ

abbrev pub tail_kernel_size : TailSizes → ℕ
tail_kernel_size g = u64 (g.kernel_ntpb * g.d_token_size)

-- The K and V tails in the kernel block of layer `sub`.
unfoldable pub tail_sub :
    Env → TailSizes → IpcBlockBounds → ℕ → ℕ → ℕ → ℕ → ℕ → List IpcBlock → Result (List IpcBlock)
tail_sub env g bounds zero_src_off kernel_off token_idx taken sub blocks =
    zero_pair env zero_src_off (tail_kernel_size g)
      (u64 (kernel_off + sub * tail_kernel_size g + token_idx * (g.d_token_size / 2)))
      (u64 (taken * (g.d_token_size / 2))) g.p_block_size bounds blocks

-- The variables of the loop.
pub record Position : Type 0 where
  pub dst_pos : ℕ
  pub blocks : List IpcBlock

unfoldable pub tail_lt_step :
    Env → TailSizes → IpcBlockBounds → ℕ → List ℕ → Position → Result Position
tail_lt_step env g bounds zero_src_off dst_blocks s = do
  blk_idx ← div s.dst_pos g.per_layer
  rest ← mod_by s.dst_pos g.per_layer
  kernel_in_vllm ← div rest g.kernel_ntpb
  token_idx ← mod_by s.dst_pos g.kernel_ntpb
  let taken = min (g.kernel_ntpb - token_idx) (g.end_tokens - s.dst_pos)
  assert env.asserts (ltb blk_idx (length dst_blocks))
  d ← at dst_blocks blk_idx
  blocks ←
      for_range g.pack 0
        (tail_sub env g bounds zero_src_off
          (u64 (d * g.d_block_size + kernel_in_vllm * g.pack * tail_kernel_size g)) token_idx taken)
        s.blocks
  ok (record { dst_pos = u32 (s.dst_pos + taken); blocks = blocks })

unfoldable pub fill_tail_lt_tokens :
    Env → TailSizes → List ℕ → List ℕ → ℕ → IpcBlockBounds → List IpcBlock → Result (List IpcBlock)
fill_tail_lt_tokens env g src_blocks dst_blocks total_tokens bounds blocks = do
  zero_block ← at src_blocks 0
  s ←
      while (suc g.end_tokens) (λ (s : Position). ltb s.dst_pos g.end_tokens)
        (tail_lt_step env g bounds (u64 (zero_block * g.p_block_size)) dst_blocks)
        (record { dst_pos = total_tokens; blocks = blocks })
  ok s.blocks

unfoldable pub fill_tail_hybrid_attn_block_p_lt_d :
    Env
    → ℕ
    → ℕ
    → ℕ
    → ℕ
    → ℕ
    → ℕ
    → List ℕ
    → List ℕ
    → ℕ
    → IpcBlockBounds
    → List IpcBlock
    → Result (List IpcBlock)
fill_tail_hybrid_attn_block_p_lt_d env p_block_size d_block_size d_token_size dst_ntpb kernel_ntpb
      attn_pack_size src_blocks dst_blocks total_tokens bounds blocks =
    do
      let pack = pack_of attn_pack_size
      per_layer ← if pack == 1 then ok dst_ntpb else div dst_ntpb pack
      assert env.asserts (per_layer * pack == dst_ntpb)
      rest ← if env.asserts then mod_by per_layer kernel_ntpb else ok 0
      assert env.asserts (rest == 0)
      assert env.asserts (d_token_size / 2 * 2 == d_token_size)
      let g : TailSizes = record {
        p_block_size = p_block_size;
        d_block_size = d_block_size;
        d_token_size = d_token_size;
        kernel_ntpb = kernel_ntpb;
        pack = pack;
        per_layer = per_layer;
        end_tokens = u32 (u32 (length dst_blocks) * per_layer);
      }
      let some_left = fill_tail_lt_tokens env g src_blocks dst_blocks total_tokens bounds blocks
      if leb g.end_tokens total_tokens then ok blocks else some_left
