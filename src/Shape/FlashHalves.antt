-- ===== src/Shape/FlashHalves.antt =====
-- kvtransfer/src/parse_block_flash.cpp for P > D: the room of the K and V blocks in the halves of a layer.

use llumnix_kv.Base.{
  ◌>>=◌, ℕ, suc, ◌+◌, ◌*◌, ◌%◌, ◌^◌, ◌<◌, ◌≤◌, ◌≡◌, refl, ap, false, List, length, u64_lem,
  mul_mono, page_room, All, arith,
}
use llumnix_kv.Env.{Env}
use llumnix_kv.Types.{IpcBlock}
use llumnix_kv.Copies.{paged, token_block}
use llumnix_kv.Bounds.{IpcBlockBounds}
use llumnix_kv.Bounds.Checked.{IsBounds, InBounds, append_at}
use llumnix_kv.Parse.Side.{Side, side-Fits}
use llumnix_kv.Parse.GtLoop.{Grouped, from, to}
use llumnix_kv.Shape.Stream.{Appends, shift}
use llumnix_kv.Shape.Paired.{All-weaken, part-Side}
use llumnix_kv.Shape.Flash.{append_shifted}

-- Whole K blocks lie in the first halves, of `p_half` and `d_half` bytes.
pub record Halved (k group_n ntpb group_off : ℕ) (src dst : List ℕ) (bounds : IpcBlockBounds)
    (p_half d_half end : ℕ) : Type 0 where
  pub valid : IsBounds bounds
  pub unscaled : bounds.src_length_scale ≡ 1
  pub some_bytes : 0 < k
  pub some_tokens : 0 < ntpb
  pub small : end < 2 ^ 32
  pub small_page : ntpb < 2 ^ 32
  pub in_group : group_off < group_n
  pub p_covers : end ≤ ntpb * length src
  pub d_covers : end ≤ ntpb * length dst
  pub p_fits : All (λ id. id * (k * ntpb) + k * ntpb ≤ p_half) src
  pub d_fits : All (λ id. id * (k * group_n * ntpb) + k * group_n * ntpb ≤ d_half) dst
  pub p_room : p_half + p_half ≤ bounds.src_capacity
  pub d_room : d_half + d_half ≤ bounds.dst_capacity

-- A V block for a K block.
abbrev pub to_v : ℕ → ℕ → IpcBlock → IpcBlock
to_v p_half d_half b = shift p_half d_half b.length b

module _ {k group_n ntpb group_off : ℕ} {src dst : List ℕ} {bounds : IpcBlockBounds}
    {p_half d_half end : ℕ}
    (v : Halved k group_n ntpb group_off src dst bounds p_half d_half end) where
  share : group_off * k + k ≤ k * group_n
  share = omega (arith, mul_mono (suc group_off) group_n k v.in_group)

  p-Side :
      (capacity : ℕ)
      → p_half ≤ capacity
      → capacity < 2 ^ 64
      → Side (k * ntpb) k ntpb 0 k bounds.src_length_scale capacity end src
  p-Side capacity h small =
      part-Side k ntpb 0 k bounds.src_length_scale capacity end src small v.unscaled v.some_tokens
        (omega arith) v.p_covers
        (All-weaken (λ (id : ℕ). id * (k * ntpb) + k * ntpb ≤ p_half)
          (λ (id : ℕ). id * (k * ntpb) + k * ntpb ≤ capacity) (λ id e. omega arith) src v.p_fits)

  d-Side :
      (capacity : ℕ)
      → d_half ≤ capacity
      → capacity < 2 ^ 64
      → Side (k * group_n * ntpb) (k * group_n) ntpb (group_off * k) k 1 capacity end dst
  d-Side capacity h small =
      part-Side (k * group_n) ntpb (group_off * k) k 1 capacity end dst small refl v.some_tokens
        share v.d_covers
        (All-weaken (λ (id : ℕ). id * (k * group_n * ntpb) + k * group_n * ntpb ≤ d_half)
          (λ (id : ℕ). id * (k * group_n * ntpb) + k * group_n * ntpb ≤ capacity)
          (λ id e. omega arith) dst v.d_fits)

  pub Halved-Grouped :
      (env : Env) → Grouped env k k (k * group_n) ntpb group_off src dst bounds false end
  Halved-Grouped env = record {
    valid = v.valid;
    some_bytes = v.some_bytes;
    some_tokens = v.some_tokens;
    small = v.small;
    small_page = v.small_page;
    p_side = p-Side bounds.src_capacity (omega (arith, v.p_room)) v.valid.src_small;
    d_side = d-Side bounds.dst_capacity (omega (arith, v.d_room)) v.valid.dst_small;
  }

  -- The V block of token `t`.
  pub v_InBounds :
      (env : Env) (t : ℕ)
      → t < end
      → InBounds bounds (
          to_v p_half d_half (
            token_block
              (from env k k (k * group_n) ntpb group_off src dst bounds false)
              (to env k k (k * group_n) ntpb group_off src dst bounds false)
              k
              t))
  v_InBounds env t lt =
      let room : t % ntpb + 0 < ntpb = omega (arith, page_room t ntpb v.some_tokens) in
      let p =
        side-Fits src (p-Side p_half (omega arith) (omega (arith, v.p_room, v.valid.src_small)))
          v.some_tokens t 0 lt room v.some_bytes in
      let d =
        side-Fits dst (d-Side d_half (omega arith) (omega (arith, v.d_room, v.valid.dst_small)))
          v.some_tokens t 0 lt room v.some_bytes in
      let ep : paged src ntpb (k * ntpb) k 0 (t + 0) ≡ paged src ntpb (k * ntpb) k 0 t =
        ap (paged src ntpb (k * ntpb) k 0) (omega arith) in
      let ed : paged dst ntpb (k * group_n * ntpb) (k * group_n) (group_off * k) (t + 0)
          ≡ paged dst ntpb (k * group_n * ntpb) (k * group_n) (group_off * k) t =
        ap (paged dst ntpb (k * group_n * ntpb) (k * group_n) (group_off * k)) (omega arith) in
      record {
        src = record {
          nonempty = v.some_bytes;
          within = rw v.unscaled (ends _ _ p_half _ k (rw v.unscaled at p.within) ep v.p_room);
        };
        dst = record { nonempty = v.some_bytes; within = ends _ _ d_half _ k d.within ed v.d_room };
      }
    where
      ends :
          (x y half cap w : ℕ)
          → x + w * 1 ≤ half
          → x ≡ y
          → half + half ≤ cap
          → y + half + w * 1 ≤ cap
      ends x y half cap w h e r = omega arith

-- One round of the second pass.
pub append_shifted_total :
    (bounds : IpcBlockBounds) (p_half d_half : ℕ) (b : IpcBlock)
    → IsBounds bounds
    → InBounds bounds (to_v p_half d_half b)
    → Appends (append_shifted bounds p_half d_half) (to_v p_half d_half) b
unfolding append_shifted ◌>>=◌
append_shifted_total bounds p_half d_half b v w i bl h = rw h (
    append_at bl bounds (to_v p_half d_half b) v w
      (u64_lem (omega (arith, w.src.within, v.src_small)))
      (u64_lem (omega (arith, w.dst.within, v.dst_small))) refl)
