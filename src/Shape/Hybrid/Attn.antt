-- ===== src/Shape/Hybrid/Attn.antt =====
-- kvtransfer/src/parse_block_qwen3_next.cpp: the attention blocks, of one layer or of several packed in a
-- page, where the K of a kernel block comes before its V.
use llumnix_kv.Base.{
  ℕ, suc, ◌+◌, ◌-◌, ◌*◌, ◌/◌, Bool, List, min, length, u32, u64, ltb, ◌==◌, if◌then◌else◌, Result,
  ok, ◌>>=◌, ◌>>◌, assert, at, div, mod_by, while, for_range,
}
use llumnix_kv.Env.{Env}
use llumnix_kv.Types.{IpcBlock}
use llumnix_kv.Bounds.{IpcBlockBounds, append_ipc_block_checked}
use llumnix_kv.Parse.{Cursor, tokens_left}

-- The sizes that `parse_hybrid_attn_block` is given.
pub record AttnSizes : Type 0 where
  pub src_ntpb : ℕ
  pub dst_ntpb : ℕ
  pub p_token_size : ℕ
  pub d_token_size : ℕ
  pub p_block_size : ℕ
  pub d_block_size : ℕ
  pub src_kernel_ntpb : ℕ
  pub dst_kernel_ntpb : ℕ
  pub attn_pack_size : ℕ

abbrev pub p_kernel_blk_size : AttnSizes → ℕ
p_kernel_blk_size g = u64 (g.src_kernel_ntpb * g.p_token_size)

abbrev pub d_kernel_blk_size : AttnSizes → ℕ
d_kernel_blk_size g = u64 (g.dst_kernel_ntpb * g.d_token_size)

abbrev pub pack_of : ℕ → ℕ
pack_of attn_pack_size = if attn_pack_size == 0 then 1 else attn_pack_size

-- Where a token stands on one side: the block, the token in its kernel block, and the offset of the first
-- kernel block of its index.
pub record Spot : Type 0 where
  pub blk_idx : ℕ
  pub token_idx_base : ℕ
  pub kernel_blk_off_base : ℕ

-- Of a block of one layer.
unfoldable pub plain_spot : ℕ → ℕ → ℕ → ℕ → Result Spot
plain_spot ntpb kernel_ntpb kernel_size token = do
  blk_idx ← div token ntpb
  kernel_blk_idx ← div (token - blk_idx * ntpb) kernel_ntpb
  token_idx_base ← mod_by token kernel_ntpb
  ok (record {
    blk_idx = blk_idx;
    token_idx_base = token_idx_base;
    kernel_blk_off_base = u64 (kernel_blk_idx * kernel_size);
  })

-- Of a page of `pack` layers, with `per_layer` tokens of each.
unfoldable pub packed_spot : ℕ → ℕ → ℕ → ℕ → ℕ → Result Spot
packed_spot per_layer kernel_ntpb kernel_size pack token = do
  blk_idx ← div token per_layer
  rest ← mod_by token per_layer
  kernel_in_vllm ← div rest kernel_ntpb
  token_idx_base ← mod_by token kernel_ntpb
  ok (record {
    blk_idx = blk_idx;
    token_idx_base = token_idx_base;
    kernel_blk_off_base = u64 (u32 (kernel_in_vllm * pack) * kernel_size);
  })

-- The two sides of a round, where a page packs several layers.
unfoldable pub packed_spots : Env → AttnSizes → ℕ → Result (Spot × Spot)
packed_spots env g token = do
  let pack = pack_of g.attn_pack_size
  src_per_layer ← div g.src_ntpb pack
  dst_per_layer ← div g.dst_ntpb pack
  assert env.asserts (src_per_layer * pack == g.src_ntpb)
  assert env.asserts (dst_per_layer * pack == g.dst_ntpb)
  src_rest ← if env.asserts then mod_by src_per_layer g.src_kernel_ntpb else ok 0
  assert env.asserts (src_rest == 0)
  dst_rest ← if env.asserts then mod_by dst_per_layer g.dst_kernel_ntpb else ok 0
  assert env.asserts (dst_rest == 0)
  p ← packed_spot src_per_layer g.src_kernel_ntpb (p_kernel_blk_size g) pack token
  d ← packed_spot dst_per_layer g.dst_kernel_ntpb (d_kernel_blk_size g) pack token
  ok (p, d)

unfoldable pub plain_spots : AttnSizes → ℕ → Result (Spot × Spot)
plain_spots g token = do
  p ← plain_spot g.src_ntpb g.src_kernel_ntpb (p_kernel_blk_size g) token
  d ← plain_spot g.dst_ntpb g.dst_kernel_ntpb (d_kernel_blk_size g) token
  ok (p, d)

-- The K and V of one token: `idx` in the round, with the offsets of the two kernel blocks.
unfoldable pub attn_token :
    AttnSizes
    → IpcBlockBounds
    → Bool
    → ℕ
    → Spot × Spot
    → ℕ
    → ℕ
    → ℕ
    → List IpcBlock
    → Result (List IpcBlock)
attn_token g bounds swap group_off (p, d) p_kernel_off d_kernel_off idx blocks = do
  let p_step = g.p_token_size / 2
  let d_step = g.d_token_size / 2
  let pk = u64 (p_kernel_off + u32 (p.token_idx_base + idx) * p_step)
  let pv = u64 (pk + p_kernel_blk_size g / 2)
  let dk = u64 (d_kernel_off + u32 (d.token_idx_base + idx) * d_step + group_off * p_step)
  let dv = u64 (dk + d_kernel_blk_size g / 2)
  ks ←
      append_ipc_block_checked blocks bounds (if swap then dk else pk) (if swap then pk else dk)
        p_step
  append_ipc_block_checked ks bounds (if swap then dv else pv) (if swap then pv else dv) p_step

-- The tokens of a round, in the kernel blocks of layer `sub`.
unfoldable pub attn_sub :
    AttnSizes
    → IpcBlockBounds
    → Bool
    → ℕ
    → Spot × Spot
    → ℕ
    → ℕ
    → ℕ
    → ℕ
    → List IpcBlock
    → Result (List IpcBlock)
attn_sub g bounds swap group_off (p, d) p_blk_off d_blk_off taken sub blocks =
    for_range taken 0
      (attn_token g bounds swap group_off (p, d)
        (u64 (p_blk_off + p.kernel_blk_off_base + sub * p_kernel_blk_size g))
        (u64 (d_blk_off + d.kernel_blk_off_base + sub * d_kernel_blk_size g)))
      blocks

unfoldable pub attn_step :
    Env → AttnSizes → List ℕ → List ℕ → ℕ → IpcBlockBounds → Bool → Cursor → Result Cursor
attn_step env g src_blocks dst_blocks group_off bounds swap c = do
  let pack = pack_of g.attn_pack_size
  spots ← if pack == 1 then plain_spots g c.wrote_tokens else packed_spots env g c.wrote_tokens
  let taken =
      min (g.src_kernel_ntpb - spots.0.token_idx_base)
        (min (g.dst_kernel_ntpb - spots.1.token_idx_base) c.left_tokens)
  assert env.asserts (ltb spots.0.blk_idx (length src_blocks))
  assert env.asserts (ltb spots.1.blk_idx (length dst_blocks))
  s ← at src_blocks spots.0.blk_idx
  d ← at dst_blocks spots.1.blk_idx
  assert env.asserts (g.p_token_size / 2 * 2 == g.p_token_size)
  assert env.asserts (g.d_token_size / 2 * 2 == g.d_token_size)
  blocks ←
      for_range pack 0
        (attn_sub g bounds swap group_off spots (u64 (s * g.p_block_size))
          (u64 (d * g.d_block_size)) taken)
        c.blocks
  ok (record {
    wrote_tokens = u32 (c.wrote_tokens + taken);
    left_tokens = c.left_tokens - taken;
    blocks = blocks;
  })

unfoldable pub parse_hybrid_attn_block :
    Env
    → AttnSizes
    → List ℕ
    → List ℕ
    → ℕ
    → ℕ
    → ℕ
    → IpcBlockBounds
    → Bool
    → List IpcBlock
    → Result (List IpcBlock)
parse_hybrid_attn_block env g src_blocks dst_blocks wrote_tokens left_tokens group_off bounds swap
      blocks =
    do
      c ←
          while (suc left_tokens) tokens_left
            (attn_step env g src_blocks dst_blocks group_off bounds swap)
            (record { wrote_tokens = wrote_tokens; left_tokens = left_tokens; blocks = blocks })
      ok c.blocks
