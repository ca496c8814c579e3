-- ===== src/Shape/SplitBlocks.antt =====
-- kvtransfer/src/parse_block_ragged.cpp, `do_parse_block_send_internal`: the two passes over the new tokens.
use native.Mathlib.Nat.{mul-div_left, mul-mod_left}
use llumnix_kv.Base.{
  ◌>>=◌, ℕ, zero, suc, ◌+◌, ◌*◌, ◌/◌, ◌%◌, ◌^◌, ◌<◌, ◌≤◌, ◌≡◌, refl, sym, ap, subst, mul_mono, ◌∙◌,
  inr, Bool, true, false, List, [], ◌∷◌, ◌++◌, map, u64, u64_lem, u32_lem, ltb, lt→ltb, ◌==◌,
  ==_iff, if◌then◌else◌, Result, ok, assert, at, div, mod_by, assert_ok, div_ok, mod_by_ok, All,
  arith,
}
use llumnix_kv.Env.{Env}
use llumnix_kv.Types.{IpcBlock, WorkerInfo}
use llumnix_kv.Copies.{token_block, token_blocks}
use llumnix_kv.Bounds.{IpcBlockBounds}
use llumnix_kv.Bounds.Checked.{IsBounds, InBounds, append_at}
use llumnix_kv.Parse.{parse_block_send_gt}
use llumnix_kv.Parse.GtLoop.{Grouped, from, to}
use llumnix_kv.Parse.Gt.{effective, gt_total}
use llumnix_kv.Shape.{SendBlocks, resize}
use llumnix_kv.Shape.Stream.{Appends, shift, stream_total}
use llumnix_kv.Shape.Paired.{Paired, Paired-Grouped, v_InBounds}
use llumnix_kv.Shape.Ragged.{append_v, do_parse_block_send_internal}

-- The worker's description, where each token has a K and a V and the ranks of `d` each take the
-- heads of `group_n` ranks of `p`.
pub record Grouping (p d : WorkerInfo) (p_tp d_tp k group_n ntpb : ℕ) : Type 0 where
  pub p_token : p.token_sizes ≡ k * 2 ∷ []
  pub d_token : d.token_sizes ≡ k * 2 * group_n ∷ []
  pub p_block : p.block_sizes ≡ ntpb * (k * 2) ∷ []
  pub d_block : d.block_sizes ≡ ntpb * (k * 2 * group_n) ∷ []
  pub ranks : p_tp ≡ group_n * d_tp
  pub some_rank : 0 < d_tp
  pub several : 1 < group_n
  pub same_group : p.worker_tp_rank / group_n ≡ d.worker_tp_rank
  pub words : ntpb * (k * 2 * group_n) < 2 ^ 64

pub All-token_blocks {ℓ} :
    (P : IpcBlock → Type ℓ) (src dst : ℕ → ℕ) (width t n : ℕ)
    → ((i : ℕ) → t ≤ i → i < t + n → P (token_block src dst width i))
    → All P (token_blocks src dst width t n)
unfolding token_blocks
All-token_blocks P src dst width t zero h = tt
All-token_blocks P src dst width t (suc n) h = (
  h t (omega arith) (omega arith),
  All-token_blocks P src dst width (t + 1) n (λ i lo hi. h i (omega arith) (omega arith)),
)

-- A value that only an `assert` reads.
pub checked : (b : Bool) (m : Result ℕ) (n : ℕ) → m ≡ ok n → (if b then m else ok n) ≡ ok n
checked true m n h = h
checked false m n h = refl

pub assert_same : (b : Bool) (n : ℕ) → assert b (n == n) ≡ ok tt
assert_same b n = assert_ok b (n == n) ((==_iff n n).1 refl)

-- One round of the second pass.
append_v_total :
    (env : Env) (k dk : ℕ) (bounds : IpcBlockBounds) (swap : Bool) (b : IpcBlock)
    → IsBounds bounds
    → b.length ≡ k
    → InBounds bounds (shift (if swap then dk else k) (if swap then k else dk) k b)
    → Appends
        (append_v env k dk bounds swap)
        (shift (if swap then dk else k) (if swap then k else dk) k)
        b
unfolding append_v ◌>>=◌
append_v_total env k dk bounds swap b v e w i bl h =
    rw (h, assert_ok env.asserts (k == b.length) ((==_iff _ _).1 (sym e)))
      (append_at bl bounds (shift (if swap then dk else k) (if swap then k else dk) k b) v w
        (u64_lem (omega (arith, w.src.within, v.src_small)))
        (u64_lem (omega (arith, w.dst.within, v.dst_small))) refl)

-- The K blocks of the new tokens.
abbrev pub k_blocks :
    Env → ℕ → ℕ → ℕ → ℕ → List ℕ → List ℕ → ℕ → ℕ → IpcBlockBounds → Bool → List IpcBlock
k_blocks env k group_n ntpb group_off p_blocks d_blocks seen new bounds swap =
    token_blocks (from env (k * 2) k (k * 2 * group_n) ntpb group_off p_blocks d_blocks bounds swap)
      (to env (k * 2) k (k * 2 * group_n) ntpb group_off p_blocks d_blocks bounds swap) k seen new

module _ {p d : WorkerInfo} {p_tp d_tp k group_n ntpb : ℕ}
    (g : Grouping p d p_tp d_tp k group_n ntpb) (env : Env) (p_blocks d_blocks : List ℕ)
    (seen new : ℕ) (bounds : IpcBlockBounds) (swap : Bool)
    (v : Paired k group_n ntpb
      (p.worker_tp_rank % group_n)
      p_blocks
      d_blocks
      bounds
      swap
      (seen + new))
    (plain : env.bf162fp8_conversion ≡ false) (send_blocks : SendBlocks) (blocks : List IpcBlock)
    (one : resize 1 send_blocks ≡ blocks ∷ []) where
  abbrev group_off : ℕ
  group_off = p.worker_tp_rank % group_n

  abbrev ks : List IpcBlock
  ks = k_blocks env k group_n ntpb group_off p_blocks d_blocks seen new bounds swap

  abbrev pub to_v : IpcBlock → IpcBlock
  to_v = shift (if swap then k * group_n else k) (if swap then k else k * group_n) k

  first_pass :
      parse_block_send_gt env
        (k * 2)
        k
        (k * 2 * group_n)
        ntpb
        group_off
        p_blocks
        d_blocks
        seen
        new
        bounds
        swap
        blocks
      ≡ ok (blocks ++ ks)
  first_pass =
      subst
        (λ (w : ℕ).
          Grouped env (k * 2) w (k * 2 * group_n) ntpb group_off p_blocks d_blocks bounds swap
            (seen + new)
          → parse_block_send_gt env (k * 2) k (k * 2 * group_n) ntpb group_off p_blocks d_blocks
              seen new bounds swap blocks
            ≡ ok (
                blocks
                ++ token_blocks
                    (from env (k * 2) w (k * 2 * group_n) ntpb group_off p_blocks d_blocks bounds
                      swap)
                    (to env (k * 2) w (k * 2 * group_n) ntpb group_off p_blocks d_blocks bounds
                      swap)
                    w seen new))
        whole
        (gt_total env (k * 2) k (k * 2 * group_n) ntpb group_off p_blocks d_blocks seen new bounds
          swap blocks small (inr refl))
        (Paired-Grouped k group_n ntpb group_off p_blocks d_blocks bounds swap (seen + new) v env)
    where
      whole : effective env k ≡ k
      whole = rw plain refl

      small : k * 2 < 2 ^ 64
      small = omega (
        arith,
        g.words,
        g.several,
        v.some_tokens,
        mul_mono 1 (ntpb * group_n) (k * 2) (grind (arith, g.several, v.some_tokens)),
      )

  second_pass : All (Appends (append_v env k (k * group_n) bounds swap) to_v) ks
  second_pass = All-token_blocks _ _ _ k seen new (λ t lo hi.
      append_v_total env k (k * group_n) bounds swap _ v.valid refl
        (v_InBounds k group_n ntpb group_off p_blocks d_blocks bounds swap (seen + new) v env t hi))

  pub internal_total :
      do_parse_block_send_internal env p p_tp p_blocks d d_tp d_blocks seen new bounds swap
        send_blocks
      ≡ ok ((blocks ++ (ks ++ map to_v ks)) ∷ [])
  unfolding do_parse_block_send_internal at ◌>>=◌
  internal_total =
      rw
        (
          g.p_token,
          g.d_token,
          g.p_block,
          g.d_block,
          one,
          assert_ok env.asserts (ltb d_tp p_tp) (lt→ltb d_tp p_tp fewer),
          assert_ok env.asserts true refl,
          checked env.asserts (mod_by p_tp d_tp) 0 whole,
          quotient,
          checked env.asserts (div p.worker_tp_rank group_n) d.worker_tp_rank group,
          assert_same env.asserts d.worker_tp_rank,
          mod_by_ok p.worker_tp_rank group_n positive,
          small,
          halves,
          half,
          even,
          even',
          assert_same env.asserts (k * 2 * group_n),
          u64_lem {n = k * group_n} (omega (arith, small_bound)),
          assert_same env.asserts (k * group_n),
          pages,
          u32_lem v.small_page,
          u64_lem {n = ntpb * (k * 2)} (omega (arith, small_block)),
          u64_lem g.words,
          assert_same env.asserts (ntpb * (k * 2)),
          assert_same env.asserts (ntpb * (k * 2 * group_n)),
          first_pass,
          stream_total (append_v env k (k * group_n) bounds swap) to_v blocks ks second_pass,
          assert_same env.asserts 0,
        )
        refl
    where
      fewer : d_tp < p_tp
      fewer = omega (arith, g.ranks, g.some_rank, mul_mono 2 group_n d_tp g.several)

      positive : 0 < group_n
      positive = omega (arith, g.several)

      whole : mod_by p_tp d_tp ≡ ok 0
      whole =
          mod_by_ok p_tp d_tp g.some_rank
          ∙ ap ok (ap (λ n. n % d_tp) g.ranks ∙ mul-mod_left group_n d_tp)

      quotient : div p_tp d_tp ≡ ok group_n
      quotient =
          div_ok p_tp d_tp g.some_rank
          ∙ ap ok (ap (λ n. n / d_tp) g.ranks ∙ mul-div_left group_n g.some_rank)

      group : div p.worker_tp_rank group_n ≡ ok d.worker_tp_rank
      group = div_ok p.worker_tp_rank group_n positive ∙ ap ok g.same_group

      small_bound : k * 2 * group_n < 2 ^ 64
      small_bound = omega (arith, g.words, mul_mono 1 ntpb (k * 2 * group_n) v.some_tokens)

      small_block : ntpb * (k * 2) < 2 ^ 64
      small_block = omega (arith, g.words, mul_mono 1 group_n (ntpb * (k * 2)) positive)

      small : u64 (k * 2 * group_n) ≡ k * 2 * group_n
      small = u64_lem small_bound

      halves : k * 2 * group_n / 2 ≡ k * group_n
      halves = omega arith

      half : k * 2 / 2 ≡ k
      half = omega arith

      even : k * 2 * group_n % 2 ≡ 0
      even = omega arith

      even' : k * 2 % 2 ≡ 0
      even' = omega arith

      pages : div (ntpb * (k * 2)) (k * 2) ≡ ok ntpb
      pages =
          let pos : 0 < k * 2 = omega (arith, v.some_bytes) in
          div_ok (ntpb * (k * 2)) (k * 2) pos ∙ ap ok (mul-div_left ntpb pos)
