-- ===== src/Parse/Side.antt =====
-- One end of a token-wise copy.
use llumnix_kv.Base.{
  ℕ, ◌+◌, ◌-◌, ◌*◌, ◌/◌, ◌%◌, ◌^◌, ◌<◌, ◌≤◌, ◌≡◌, refl, List, length, get_or, mul_mono, page_lt,
  page_same, place_same, All, All-get_or, arith,
}
use llumnix_kv.Copies.{paged}
use llumnix_kv.Bounds.Checked.{Fits}

-- The source or the destination of a token-wise copy: `width * scale` bytes at `inner` for each token,
-- the last token of each block within a layer of `capacity` bytes, and a block for each token.
pub record Side (block_stride token_stride ntpb inner width scale capacity end : ℕ)
    (blocks : List ℕ) : Type 0 where
  pub small : capacity < 2 ^ 64
  pub covers : end ≤ ntpb * length blocks
  pub fits :
      All
        (λ id. id * block_stride + (ntpb - 1) * token_stride + inner + width * scale ≤ capacity)
        blocks

module _ {block_stride token_stride ntpb inner width scale capacity end : ℕ} (blocks : List ℕ)
    (side : Side block_stride token_stride ntpb inner width scale capacity end blocks)
    (pos : 0 < ntpb) where
  -- A token further on in the page of token `w`.
  pub side_at :
      (w i : ℕ)
      → w % ntpb + i < ntpb
      → paged blocks ntpb block_stride token_stride inner (w + i)
        ≡ get_or blocks (w / ntpb) 0 * block_stride + (w % ntpb + i) * token_stride + inner
  side_at w i room = rw (page_same w ntpb i pos room, place_same w ntpb i pos room) refl

  pub side_index : (w : ℕ) → w < end → w / ntpb < length blocks
  side_index w lt = page_lt w ntpb (length blocks) pos (omega (arith, side.covers))

  pub side_room :
      (w i : ℕ)
      → w < end
      → w % ntpb + i < ntpb
      → get_or blocks (w / ntpb) 0 * block_stride
          + (w % ntpb + i) * token_stride
          + inner
          + width * scale
        ≤ capacity
  side_room w i lt room =
      let page =
        All-get_or
          (λ (id : ℕ).
            id * block_stride + (ntpb - 1) * token_stride + inner + width * scale ≤ capacity)
          blocks (w / ntpb) 0 (side_index w lt) side.fits in
      let within = mul_mono (w % ntpb + i) (ntpb - 1) token_stride (omega arith) in
      omega (arith, page, within)

  pub side-Fits :
      (w i : ℕ)
      → w < end
      → w % ntpb + i < ntpb
      → 0 < width
      → Fits width scale (paged blocks ntpb block_stride token_stride inner (w + i)) capacity
  side-Fits w i lt room h = record {
    nonempty = h;
    within = rw (side_at w i room) (side_room w i lt room);
  }
