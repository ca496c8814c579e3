-- ===== src/Shape/Hybrid/Hnd.antt =====
-- kvtransfer/src/parse_block_flashinfer.cpp and parse_block_qwen3_next_flashinfer.cpp: attention blocks in
-- the HND layout, where a head has its tokens side by side, and the heads of K come before those of V.
use llumnix_kv.Base.{
  ℕ, suc, ◌+◌, ◌-◌, ◌*◌, ◌/◌, Bool, ◌&&◌, List, min, length, u32, u64, ltb, ◌==◌, if◌then◌else◌,
  Result, ok, ◌>>=◌, ◌>>◌, assert, at, div, mod_by, while, for_range,
}
use llumnix_kv.Env.{Env}
use llumnix_kv.Types.{IpcBlock}
use llumnix_kv.Bounds.{IpcBlockBounds, append_ipc_block_checked}
use llumnix_kv.Parse.{Cursor, tokens_left, emit_zero_fill_segments}

-- The sizes of a head and of the sections.
pub record HeadSizes : Type 0 where
  pub heads : ℕ
  pub head_dim : ℕ
  pub p_head_section : ℕ
  pub d_head_section : ℕ
  pub p_kv_section : ℕ
  pub d_kv_section : ℕ
  pub per_group_kv : ℕ

-- `assert(a % (2 * heads) == 0)`, and the bytes of a token in a head.
unfoldable pub head_dim_of : Env → ℕ → ℕ → Result ℕ
head_dim_of env token_size heads = do
  assert env.asserts (ltb 0 heads)
  rest ← if env.asserts then mod_by token_size (2 * heads) else ok 0
  assert env.asserts (rest == 0)
  div (token_size / 2) heads

-- The K and the V of a head, for the tokens of a round: `p_base` and `d_base` are the offsets of the two
-- blocks.
unfoldable pub send_head :
    HeadSizes
    → IpcBlockBounds
    → Bool
    → ℕ
    → ℕ
    → ℕ
    → ℕ
    → ℕ
    → ℕ
    → ℕ
    → List IpcBlock
    → Result (List IpcBlock)
send_head g bounds swap group_off p_base d_base p_token_idx d_token_idx taken head_idx blocks = do
  let pk = u64 (p_base + head_idx * g.p_head_section + p_token_idx * g.head_dim)
  let pv = u64 (pk + g.p_kv_section)
  let dk =
      u64 (
        d_base
        + group_off * g.per_group_kv
        + head_idx * g.d_head_section
        + d_token_idx * g.head_dim)
  let dv = u64 (dk + g.d_kv_section)
  let size = u64 (taken * g.head_dim)
  ks ←
      append_ipc_block_checked blocks bounds (if swap then dk else pk) (if swap then pk else dk)
        size
  append_ipc_block_checked ks bounds (if swap then dv else pv) (if swap then pv else dv) size

unfoldable pub hnd_step :
    HeadSizes → ℕ → ℕ → ℕ → List ℕ → List ℕ → ℕ → IpcBlockBounds → Bool → Cursor → Result Cursor
hnd_step g p_block_size d_block_size ntpb src_blocks dst_blocks group_off bounds swap c = do
  block_idx ← div c.wrote_tokens ntpb
  token_idx ← mod_by c.wrote_tokens ntpb
  s ← at src_blocks block_idx
  d ← at dst_blocks block_idx
  let taken = min (ntpb - token_idx) c.left_tokens
  blocks ←
      for_range g.heads 0
        (send_head g bounds swap group_off (u64 (s * p_block_size)) (u64 (d * d_block_size))
          token_idx token_idx taken)
        c.blocks
  ok (record {
    wrote_tokens = u32 (c.wrote_tokens + taken);
    left_tokens = c.left_tokens - taken;
    blocks = blocks;
  })

unfoldable pub parse_flashinfer_hnd_block :
    Env
    → ℕ
    → ℕ
    → ℕ
    → ℕ
    → List ℕ
    → List ℕ
    → ℕ
    → ℕ
    → ℕ
    → ℕ
    → ℕ
    → IpcBlockBounds
    → Bool
    → List IpcBlock
    → Result (List IpcBlock)
parse_flashinfer_hnd_block env p_token_size p_block_size d_block_size ntpb src_blocks dst_blocks
      wrote_tokens left_tokens group_n group_off heads bounds swap blocks =
    do
      head_dim ← head_dim_of env p_token_size heads
      let g : HeadSizes = record {
        heads = heads;
        head_dim = head_dim;
        p_head_section = u64 (ntpb * head_dim);
        d_head_section = u64 (ntpb * head_dim);
        p_kv_section = p_block_size / 2;
        d_kv_section = d_block_size / 2;
        per_group_kv = u64 (heads * u64 (ntpb * head_dim));
      }
      assert env.asserts (u64 (g.per_group_kv * group_n) == g.d_kv_section)
      c ←
          while (suc left_tokens) tokens_left
            (hnd_step g p_block_size d_block_size ntpb src_blocks dst_blocks group_off bounds swap)
            (record { wrote_tokens = wrote_tokens; left_tokens = left_tokens; blocks = blocks })
      ok c.blocks

-- What `parse_hybrid_flashinfer_hnd_block` is given of the two sides.
pub record KernelSizes : Type 0 where
  pub p_token_size : ℕ
  pub d_token_size : ℕ
  pub p_block_size : ℕ
  pub d_block_size : ℕ
  pub p_ntpb : ℕ
  pub d_ntpb : ℕ
  pub src_kernel_ntpb : ℕ
  pub dst_kernel_ntpb : ℕ

abbrev p_kernel_size : KernelSizes → ℕ
p_kernel_size k = u64 (k.src_kernel_ntpb * k.p_token_size)

abbrev d_kernel_size : KernelSizes → ℕ
d_kernel_size k = u64 (k.dst_kernel_ntpb * k.d_token_size)

unfoldable pub hybrid_hnd_step :
    Env
    → KernelSizes
    → HeadSizes
    → List ℕ
    → List ℕ
    → ℕ
    → IpcBlockBounds
    → Bool
    → Cursor
    → Result Cursor
hybrid_hnd_step env k g src_blocks dst_blocks group_off bounds swap c = do
  p_blk_idx ← div c.wrote_tokens k.p_ntpb
  p_kernel_blk_idx ← div (c.wrote_tokens - p_blk_idx * k.p_ntpb) k.src_kernel_ntpb
  p_token_idx_base ← mod_by c.wrote_tokens k.src_kernel_ntpb
  d_blk_idx ← div c.wrote_tokens k.d_ntpb
  d_kernel_blk_idx ← div (c.wrote_tokens - d_blk_idx * k.d_ntpb) k.dst_kernel_ntpb
  d_token_idx_base ← mod_by c.wrote_tokens k.dst_kernel_ntpb
  assert env.asserts (ltb p_blk_idx (length src_blocks) && ltb d_blk_idx (length dst_blocks))
  s ← at src_blocks p_blk_idx
  d ← at dst_blocks d_blk_idx
  let taken =
      min (k.src_kernel_ntpb - p_token_idx_base)
        (min (k.dst_kernel_ntpb - d_token_idx_base) c.left_tokens)
  blocks ←
      for_range g.heads 0
        (send_head g bounds swap group_off
          (u64 (s * k.p_block_size + p_kernel_blk_idx * p_kernel_size k))
          (u64 (d * k.d_block_size + d_kernel_blk_idx * d_kernel_size k)) p_token_idx_base
          d_token_idx_base taken)
        c.blocks
  ok (record {
    wrote_tokens = u32 (c.wrote_tokens + taken);
    left_tokens = c.left_tokens - taken;
    blocks = blocks;
  })

unfoldable pub parse_hybrid_flashinfer_hnd_block :
    Env
    → KernelSizes
    → List ℕ
    → List ℕ
    → ℕ
    → ℕ
    → ℕ
    → ℕ
    → ℕ
    → IpcBlockBounds
    → Bool
    → List IpcBlock
    → Result (List IpcBlock)
parse_hybrid_flashinfer_hnd_block env k src_blocks dst_blocks wrote_tokens left_tokens group_n
      group_off heads bounds swap blocks =
    do
      let p_kv_section = p_kernel_size k / 2
      let d_kv_section = d_kernel_size k / 2
      assert env.asserts (p_kv_section * 2 == p_kernel_size k)
      assert env.asserts (d_kv_section * 2 == d_kernel_size k)
      head_dim ← head_dim_of env k.p_token_size heads
      let d_head_section = u64 (k.dst_kernel_ntpb * head_dim)
      let g : HeadSizes = record {
        heads = heads;
        head_dim = head_dim;
        p_head_section = u64 (k.src_kernel_ntpb * head_dim);
        d_head_section = d_head_section;
        p_kv_section = p_kv_section;
        d_kv_section = d_kv_section;
        per_group_kv = u64 (heads * d_head_section);
      }
      assert env.asserts (u64 (g.per_group_kv * group_n) == d_kv_section)
      c ←
          while (suc left_tokens) tokens_left
            (hybrid_hnd_step env k g src_blocks dst_blocks group_off bounds swap)
            (record { wrote_tokens = wrote_tokens; left_tokens = left_tokens; blocks = blocks })
      ok c.blocks

-- The tails of the K and of the V of a head, from `base` on.
unfoldable pub zero_head :
    Env → IpcBlockBounds → ℕ → ℕ → ℕ → ℕ → ℕ → ℕ → ℕ → List IpcBlock → Result (List IpcBlock)
zero_head env bounds zero_src_off base head_section kv_section size max_seg head_idx blocks = do
  let dk = u64 (base + head_idx * head_section)
  ks ← emit_zero_fill_segments env zero_src_off dk size max_seg bounds blocks
  emit_zero_fill_segments env zero_src_off (u64 (dk + kv_section)) size max_seg bounds ks

-- Where the last block is not full.
unfoldable pub fill_last_heads :
    Env
    → KernelSizes
    → List ℕ
    → List ℕ
    → ℕ
    → ℕ
    → ℕ
    → ℕ
    → IpcBlockBounds
    → List IpcBlock
    → Result (List IpcBlock)
fill_last_heads env k src_blocks dst_blocks total_tokens filled group_off heads bounds blocks = do
  d_blk_idx ← div total_tokens k.d_ntpb
  assert env.asserts (ltb d_blk_idx (length dst_blocks))
  head_dim ← head_dim_of env k.p_token_size heads
  let head_section = u64 (k.d_ntpb * head_dim)
  s ← at src_blocks 0
  d ← at dst_blocks d_blk_idx
  for_range heads 0
      (zero_head env bounds (u64 (s * k.p_block_size))
        (u64 (d * k.d_block_size + group_off * u64 (heads * head_section) + filled * head_dim))
        head_section (u64 (k.d_ntpb * k.d_token_size) / 2) (u64 ((k.d_ntpb - filled) * head_dim))
        k.p_block_size)
      blocks

unfoldable pub fill_last_hybrid_flashinfer_hnd_block :
    Env
    → KernelSizes
    → List ℕ
    → List ℕ
    → ℕ
    → ℕ
    → ℕ
    → IpcBlockBounds
    → List IpcBlock
    → Result (List IpcBlock)
fill_last_hybrid_flashinfer_hnd_block env k src_blocks dst_blocks total_tokens group_off heads
      bounds blocks =
    if total_tokens == 0
    then ok blocks
    else (mod_by total_tokens k.d_ntpb >>= λ filled.
        if filled == 0
        then ok blocks
        else fill_last_heads env k src_blocks dst_blocks total_tokens filled group_off heads bounds
            blocks)
