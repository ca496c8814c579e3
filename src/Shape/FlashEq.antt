-- ===== src/Shape/FlashEq.antt =====
-- kvtransfer/src/parse_block_flash.cpp for P == D: the K pages of the new tokens, then their V pages in
-- the other half of the layers.
use mathlib.Core.List.{map-append}
use llumnix_kv.Base.{
  ◌>>=◌, ℕ, zero, suc, ◌+◌, ◌*◌, ◌/◌, ◌^◌, ◌<◌, ◌≤◌, ◌≡◌, refl, ap, ◌∙◌, Bool, true, ◌==◌, List, [],
  ◌∷◌, ◌++◌, map, u64_lem, ok, at, index, assert_ok, ==_iff, All, arith,
}
use llumnix_kv.Env.{Env}
use llumnix_kv.Types.{IpcBlock, WorkerInfo, ReqSendTask}
use llumnix_kv.Copies.{span, span_eq, bytes, bytes-append, tokens, paged}
use llumnix_kv.Bounds.{IpcBlockBounds, make_ipc_block_bounds}
use llumnix_kv.Bounds.Checked.{IsBounds, InBounds}
use llumnix_kv.Parse.EqLoop.{Fitting, Roomy}
use llumnix_kv.Parse.Eq.{p_eq_d_within}
use llumnix_kv.Shape.{SendBlocks, resize, sizes_eq}
use llumnix_kv.Shape.Stream.{Appends, stream_total}
use llumnix_kv.Shape.SplitBlocks.{assert_same}
use llumnix_kv.Shape.FlashHalves.{to_v, append_shifted_total}
use llumnix_kv.Shape.Flash.{append_shifted, vllm_parse_block_send_p_eq_d}

-- A byte moved at both ends.
abbrev move : ℕ → ℕ → ℕ × ℕ → ℕ × ℕ
move a b c = (c.0 + a, c.1 + b)

span-move : (a b s d n : ℕ) → span (s + a) (d + b) n ≡ map (move a b) (span s d n)
unfolding span
span-move a b s d zero = refl
span-move a b s d (suc n) =
    ap (◌∷◌ (s + a, d + b))
      (span_eq {n = n} (omega arith) (omega arith) refl ∙ span-move a b (s + 1) (d + 1) n)

bytes-move : (a b : ℕ) (bs : List IpcBlock) → bytes (map (to_v a b) bs) ≡ map (move a b) (bytes bs)
unfolding bytes
bytes-move a b [] = refl
bytes-move a b (x ∷ bs) = rw (
  bytes-move a b bs,
  span-move a b x.src_offset x.dst_offset x.length,
  map-append (move a b) (span x.src_offset x.dst_offset x.length) (bytes bs),
)

tokens-move :
    (a b : ℕ) (src src' dst dst' : ℕ → ℕ) (width t n : ℕ)
    → ((t : ℕ) → src' t ≡ src t + a)
    → ((t : ℕ) → dst' t ≡ dst t + b)
    → tokens src' dst' width t n ≡ map (move a b) (tokens src dst width t n)
unfolding tokens
tokens-move a b src src' dst dst' width t zero hs hd = refl
tokens-move a b src src' dst dst' width t (suc n) hs hd = rw (
  hs t,
  hd t,
  span-move a b (src t) (dst t) width,
  tokens-move a b src src' dst dst' width (t + 1) n hs hd,
  map-append (move a b) (span (src t) (dst t) width) (tokens src dst width (t + 1) n),
)

-- The first halves of the layers.
abbrev pub first_halves : ℕ → ℕ → IpcBlockBounds
first_halves p_half d_half = record {
  src_capacity = p_half;
  dst_capacity = d_half;
  src_length_scale = 1;
  cache_idx = 0;
}

-- A K block in the first halves has its V block in the layers.
v_of_half :
    (bounds : IpcBlockBounds) (p_half d_half : ℕ) (b : IpcBlock)
    → bounds.src_length_scale ≡ 1
    → p_half + p_half ≤ bounds.src_capacity
    → d_half + d_half ≤ bounds.dst_capacity
    → InBounds (first_halves p_half d_half) b
    → InBounds bounds (to_v p_half d_half b)
v_of_half bounds p_half d_half b one p d h = record {
  src = record { nonempty = h.src.nonempty; within = rw one (omega (arith, h.src.within, p)) };
  dst = record { nonempty = h.src.nonempty; within = omega (arith, h.dst.within, d) };
}

all_appended :
    (bounds : IpcBlockBounds) (p_half d_half : ℕ) (bs : List IpcBlock)
    → IsBounds bounds
    → bounds.src_length_scale ≡ 1
    → p_half + p_half ≤ bounds.src_capacity
    → d_half + d_half ≤ bounds.dst_capacity
    → All (InBounds (first_halves p_half d_half)) bs
    → All (Appends (append_shifted bounds p_half d_half) (to_v p_half d_half)) bs
all_appended bounds p_half d_half [] v one p d a = tt
all_appended bounds p_half d_half (b ∷ bs) v one p d a = (
  append_shifted_total bounds p_half d_half b v (v_of_half bounds p_half d_half b one p d a.0),
  all_appended bounds p_half d_half bs v one p d a.1,
)

-- Two workers of the same rank and sizes, and their layers.
pub record Alike (p d : WorkerInfo) (k ntpb : ℕ) (bounds : IpcBlockBounds) : Type 0 where
  pub p_token : p.token_sizes ≡ k * 2 ∷ []
  pub d_token : d.token_sizes ≡ k * 2 ∷ []
  pub p_block : p.block_sizes ≡ ntpb * k * 2 ∷ []
  pub d_block : d.block_sizes ≡ ntpb * k * 2 ∷ []
  pub same_rank : p.worker_tp_rank ≡ d.worker_tp_rank
  pub small_page : ntpb < 2 ^ 32
  pub words : ntpb * k < 2 ^ 64
  pub p_room : ntpb * k * p.layer_num_blocks + ntpb * k * p.layer_num_blocks ≤ bounds.src_capacity
  pub d_room : ntpb * k * d.layer_num_blocks + ntpb * k * d.layer_num_blocks ≤ bounds.dst_capacity

module _ (env : Env) (p d : WorkerInfo) (valid_ranks : List Bool) (rank k ntpb : ℕ)
    (task : ReqSendTask) (src dst : List ℕ) (bounds : IpcBlockBounds) (send_blocks : SendBlocks)
    (blocks : List IpcBlock) where
  -- FLASH_CACHE_SHAPE, P == D, without the cast to fp8: the scale of the source lengths is 1
  -- (`Roomy`). Where, besides, the two workers have the same rank and sizes (`Alike`), whole K
  -- blocks lie within the first halves of the layers and the lists cover the tokens (`Roomy`),
  -- `vllm_parse_block_send_p_eq_d` returns, keeps the blocks that were there, and what it appends
  -- copies exactly the K bytes of the new tokens, in order, then exactly their V bytes, one half
  -- further on at either end.
  pub flash_eq_total :
      Alike p d k ntpb bounds
      → index task.req.src_blocks 0 ≡ ok src
      → index task.req.dst_blocks 0 ≡ ok dst
      → make_ipc_block_bounds env p d 0 ≡ ok bounds
      → Fitting env (ntpb * k) k ntpb src dst bounds (task.seen_tokens + task.new_tokens)
      → Roomy env
          (ntpb * k)
          k
          ntpb
          src
          dst
          bounds
          (first_halves (ntpb * k * p.layer_num_blocks) (ntpb * k * d.layer_num_blocks))
      → resize 1 send_blocks ≡ blocks ∷ []
      → (new : List IpcBlock) × (vllm_parse_block_send_p_eq_d env p d valid_ranks d.engine_tp_size
            rank task send_blocks
          ≡ ok ((blocks ++ new) ∷ []))
        × (bytes new
            ≡ tokens
                (paged src ntpb (ntpb * k) k 0)
                (paged dst ntpb (ntpb * k) k 0)
                k
                task.seen_tokens
                task.new_tokens
              ++ tokens
                  (paged src ntpb (ntpb * k) k (ntpb * k * p.layer_num_blocks))
                  (paged dst ntpb (ntpb * k) k (ntpb * k * d.layer_num_blocks))
                  k
                  task.seen_tokens
                  task.new_tokens)
  unfolding vllm_parse_block_send_p_eq_d at ◌>>=◌
  flash_eq_total g hs hd hb v r one =
      let p_half = ntpb * k * p.layer_num_blocks in
      let d_half = ntpb * k * d.layer_num_blocks in
      let (ks, e, copied, inside) =
        p_eq_d_within env (ntpb * k) k ntpb bounds task blocks src dst (first_halves p_half d_half)
          hs hd g.small_page g.words r v in
      (
        ks ++ map (to_v p_half d_half) ks,
        rw
            (
              hb,
              assert_same env.asserts d.engine_tp_size,
              g.p_token,
              g.d_token,
              g.p_block,
              g.d_block,
              g.same_rank,
              assert_same env.asserts d.worker_tp_rank,
              assert_ok env.asserts (sizes_eq (k * 2 ∷ []) (k * 2 ∷ [])) (same (k * 2)),
              assert_ok env.asserts (sizes_eq (ntpb * k * 2 ∷ []) (ntpb * k * 2 ∷ []))
                  (same (ntpb * k * 2)),
              assert_same env.asserts 1,
              half k,
              half (ntpb * k),
              double k,
              double (ntpb * k),
              assert_same env.asserts (k * 2),
              assert_same env.asserts (ntpb * k * 2),
              one,
              e,
              u64_lem {n = p_half} (omega (arith, g.p_room, v.valid.src_small)),
              u64_lem {n = d_half} (omega (arith, g.d_room, v.valid.dst_small)),
              stream_total (append_shifted bounds p_half d_half) (to_v p_half d_half) blocks ks (
                  all_appended bounds p_half d_half ks v.valid v.unscaled g.p_room g.d_room inside),
            )
            refl,
        rw
            (
              bytes-append ks (map (to_v p_half d_half) ks),
              bytes-move p_half d_half ks,
              copied,
              tokens-move p_half d_half (paged src ntpb (ntpb * k) k 0)
                  (paged src ntpb (ntpb * k) k p_half) (paged dst ntpb (ntpb * k) k 0)
                  (paged dst ntpb (ntpb * k) k d_half) k task.seen_tokens task.new_tokens
                  (λ t. omega arith) (λ t. omega arith),
            )
            refl,
      )
    where
      same : (n : ℕ) → sizes_eq (n ∷ []) (n ∷ []) ≡ true
      same n = let e : (n == n) ≡ true = (==_iff n n).1 refl in rw e refl

      half : (n : ℕ) → n * 2 / 2 ≡ n
      half n = omega arith

      double : (n : ℕ) → 2 * n ≡ n * 2
      double n = omega arith
