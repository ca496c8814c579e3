-- ===== src/Shape/FlashSplit.antt =====
-- kvtransfer/src/parse_block_flash.cpp for P > D: the K and V of each new token, to their place among
-- the group of P ranks, each in its half of the layer.
use native.Mathlib.Nat.{mul-div_left}
use llumnix_kv.Base.{
  ◌>>=◌, ℕ, ◌+◌, ◌*◌, ◌/◌, ◌%◌, ◌^◌, ◌<◌, ◌≡◌, refl, ap, ◌∙◌, subst, inl, Bool, true, false, List,
  [], ◌∷◌, ◌++◌, map, u32_lem, u64_lem, ltb, lt→ltb, ok, at, index, div, assert_ok, div_ok,
  mod_by_ok, mul_mono, arith,
}
use llumnix_kv.Env.{Env}
use llumnix_kv.Types.{IpcBlock, WorkerInfo, ReqSendTask}
use llumnix_kv.Copies.{token_blocks}
use llumnix_kv.Bounds.{IpcBlockBounds, make_ipc_block_bounds}
use llumnix_kv.Parse.{parse_block_send_gt}
use llumnix_kv.Parse.GtLoop.{Grouped, from, to}
use llumnix_kv.Parse.Gt.{effective, gt_total}
use llumnix_kv.Shape.{SendBlocks, resize, count}
use llumnix_kv.Shape.Stream.{stream_total}
use llumnix_kv.Shape.SplitBlocks.{checked, assert_same, All-token_blocks}
use llumnix_kv.Shape.Flash.{append_shifted, vllm_gt_selected, vllm_parse_block_send_p_gt_d}
use llumnix_kv.Shape.FlashHalves.{Halved, to_v, append_shifted_total, Halved-Grouped, v_InBounds}

-- The descriptions of the two workers and the effective ranks.
pub record Flashed (p d : WorkerInfo) (valid_ranks : List Bool) (tp rank k group_n ntpb : ℕ)
    : Type 0 where
  pub p_token : p.token_sizes ≡ k * 2 ∷ []
  pub d_token : d.token_sizes ≡ k * 2 * group_n ∷ []
  pub p_block : p.block_sizes ≡ ntpb * (k * 2) ∷ []
  pub d_block : d.block_sizes ≡ ntpb * (k * 2 * group_n) ∷ []
  pub selected : index valid_ranks p.worker_tp_rank ≡ ok true
  pub senders : count valid_ranks ≡ group_n * d.engine_tp_size
  pub some_rank : 0 < d.engine_tp_size
  pub more : d.engine_tp_size < tp
  pub same_group : rank / group_n ≡ d.worker_tp_rank
  pub words : ntpb * (k * 2 * group_n) < 2 ^ 64

module _ (env : Env) (task : ReqSendTask) (src dst : List ℕ) (bounds : IpcBlockBounds)
    (k group_n ntpb rank : ℕ) where
  -- The K blocks of the new tokens.
  abbrev pub flash_k_blocks : ℕ → List IpcBlock
  flash_k_blocks group_off =
      token_blocks (from env k k (k * group_n) ntpb group_off src dst bounds false)
        (to env k k (k * group_n) ntpb group_off src dst bounds false) k task.seen_tokens
        task.new_tokens

  flash_first_pass :
      (p_half d_half : ℕ) (blocks : List IpcBlock)
      → k < 2 ^ 64
      → env.bf162fp8_conversion ≡ false
      → Halved k group_n ntpb
          (rank % group_n)
          src
          dst
          bounds
          p_half
          d_half
          (task.seen_tokens + task.new_tokens)
      → parse_block_send_gt env k k
          (k * group_n)
          ntpb
          (rank % group_n)
          src
          dst
          task.seen_tokens
          task.new_tokens
          bounds
          false
          blocks
        ≡ ok (blocks ++ flash_k_blocks (rank % group_n))
  flash_first_pass p_half d_half blocks small plain v =
      let whole : effective env k ≡ k = rw plain refl in
      subst
        (λ (w : ℕ).
          Grouped env k w (k * group_n) ntpb (rank % group_n) src dst bounds false
            (task.seen_tokens + task.new_tokens)
          → parse_block_send_gt env k k (k * group_n) ntpb (rank % group_n) src dst task.seen_tokens
              task.new_tokens bounds false blocks
            ≡ ok (
                blocks
                ++ token_blocks
                    (from env k w (k * group_n) ntpb (rank % group_n) src dst bounds false)
                    (to env k w (k * group_n) ntpb (rank % group_n) src dst bounds false) w
                    task.seen_tokens task.new_tokens))
        whole
        (gt_total env k k (k * group_n) ntpb (rank % group_n) src dst task.seen_tokens
          task.new_tokens bounds false blocks small (inl refl))
        (Halved-Grouped v env)

module _ {p d : WorkerInfo} {valid_ranks : List Bool} {tp rank k group_n ntpb : ℕ} (env : Env)
    (task : ReqSendTask) (src dst : List ℕ) (bounds : IpcBlockBounds) (send_blocks : SendBlocks)
    (blocks : List IpcBlock) where
  -- FLASH_CACHE_SHAPE, P > D, without the cast to fp8, for a selected rank. Where the ranks of D
  -- hold the heads of `group_n` effective ranks of P each (`Flashed`) and whole K blocks lie within
  -- the first halves of the layers (`Halved`), `vllm_parse_block_send_p_gt_d` returns, and what it
  -- adds is the K block of each new token, to its place in the group, followed by the V block of
  -- each of them, at the same place in the V tensor, one half further on at either end.
  pub flash_gt_total :
      Flashed p d valid_ranks tp rank k group_n ntpb
      → index task.req.src_blocks 0 ≡ ok src
      → index task.req.dst_blocks 0 ≡ ok dst
      → make_ipc_block_bounds env p d 0 ≡ ok bounds
      → Halved k group_n ntpb
          (rank % group_n)
          src
          dst
          bounds
          (ntpb * k * p.layer_num_blocks)
          (ntpb * (k * group_n) * d.layer_num_blocks)
          (task.seen_tokens + task.new_tokens)
      → env.bf162fp8_conversion ≡ false
      → resize 1 send_blocks ≡ blocks ∷ []
      → vllm_parse_block_send_p_gt_d env p d valid_ranks tp rank task send_blocks
        ≡ ok (
            (blocks
              ++ (flash_k_blocks env task src dst bounds k group_n ntpb rank (rank % group_n)
                  ++ map
                      (to_v
                        (ntpb * k * p.layer_num_blocks)
                        (ntpb * (k * group_n) * d.layer_num_blocks))
                      (flash_k_blocks env task src dst bounds k group_n ntpb rank
                        (rank % group_n))))
            ∷ [])
  unfolding vllm_parse_block_send_p_gt_d vllm_gt_selected at ◌>>=◌
  flash_gt_total g hs hd hb v plain one =
      rw
        (
          hb,
          hs,
          hd,
          g.selected,
          g.p_token,
          g.d_token,
          g.p_block,
          g.d_block,
          one,
          assert_ok env.asserts (ltb d.engine_tp_size tp) (lt→ltb d.engine_tp_size tp g.more),
          quotient,
          assert_ok env.asserts (ltb 0 group_n) (lt→ltb 0 group_n positive),
          checked env.asserts (div rank group_n) d.worker_tp_rank group,
          assert_same env.asserts d.worker_tp_rank,
          mod_by_ok rank group_n positive,
          u64_lem {n = k * 2 * group_n} small,
          halves,
          half,
          even,
          even',
          assert_same env.asserts (k * 2 * group_n),
          u64_lem {n = k * group_n} (omega (arith, small)),
          assert_same env.asserts (k * group_n),
          pages,
          u32_lem v.small_page,
          u64_lem {n = ntpb * (k * 2)} small_block,
          u64_lem g.words,
          assert_same env.asserts (ntpb * (k * 2)),
          assert_same env.asserts (ntpb * (k * 2 * group_n)),
          flash_first_pass env task src dst bounds k group_n ntpb rank _ _ blocks
              (omega (arith, small, mul_mono 1 group_n (k * 2) positive)) plain v,
          u64_lem {n = ntpb * k * p.layer_num_blocks} (omega (arith, v.p_room, v.valid.src_small)),
          u64_lem {n = ntpb * (k * group_n) * d.layer_num_blocks}
              (omega (arith, v.d_room, v.valid.dst_small)),
          stream_total
              (append_shifted bounds (ntpb * k * p.layer_num_blocks)
                (ntpb * (k * group_n) * d.layer_num_blocks))
              (to_v (ntpb * k * p.layer_num_blocks) (ntpb * (k * group_n) * d.layer_num_blocks))
              blocks (flash_k_blocks env task src dst bounds k group_n ntpb rank (rank % group_n))
              (All-token_blocks _ _ _ k task.seen_tokens task.new_tokens
                (λ t lo hi. append_shifted_total bounds _ _ _ v.valid (v_InBounds v env t hi))),
          assert_same env.asserts 0,
        )
        refl
    where
      positive : 0 < group_n
      positive = omega (arith, v.in_group)

      quotient : div (count valid_ranks) d.engine_tp_size ≡ ok group_n
      quotient =
          div_ok (count valid_ranks) d.engine_tp_size g.some_rank
          ∙ ap ok (ap (λ n. n / d.engine_tp_size) g.senders ∙ mul-div_left group_n g.some_rank)

      group : div rank group_n ≡ ok d.worker_tp_rank
      group = div_ok rank group_n positive ∙ ap ok g.same_group

      small : k * 2 * group_n < 2 ^ 64
      small = omega (arith, g.words, mul_mono 1 ntpb (k * 2 * group_n) v.some_tokens)

      small_block : ntpb * (k * 2) < 2 ^ 64
      small_block = omega (arith, g.words, mul_mono 1 group_n (ntpb * (k * 2)) positive)

      halves : k * 2 * group_n / 2 ≡ k * group_n
      halves = omega arith

      half : k * 2 / 2 ≡ k
      half = omega arith

      even : k * 2 * group_n % 2 ≡ 0
      even = omega arith

      even' : k * 2 % 2 ≡ 0
      even' = omega arith

      pages : div (ntpb * (k * 2)) (k * 2) ≡ ok ntpb
      pages =
          let pos : 0 < k * 2 = omega (arith, v.some_bytes) in
          div_ok (ntpb * (k * 2)) (k * 2) pos ∙ ap ok (mul-div_left ntpb pos)
