-- ===== src/Parse/GtLoop.antt =====
-- `parse_block_send_gt` copies exactly the K bytes of the new tokens, to their place in the group.
use llumnix_kv.Base.{
  ap, ◌∙◌, ◌>>=◌, u64_place, ℕ, suc, ◌+◌, ◌-◌, ◌*◌, ◌/◌, ◌%◌, ◌^◌, ◌<◌, ◌≡◌, refl, ◌∙◌, Bool, true,
  false, List, ◌++◌, min, length, get_or, push_back, u32, u64, u32_lem, ltb, lt→ltb, ◌&&◌,
  if◌then◌else◌, Result, ok, assert_ok, at_ok, div_ok, mod_by_ok, while, for_range, taken_room,
  taken_pos, arith,
}
use llumnix_kv.Env.{Env}
use llumnix_kv.Types.{IpcBlock}
use llumnix_kv.Copies.{paged, token_block, token_blocks, token_loop}
use llumnix_kv.Bounds.{IpcBlockBounds}
use llumnix_kv.Bounds.Checked.{IsBounds, InBounds, Fits, append_at}
use llumnix_kv.Parse.Progress.{Advance, progress_total}
use llumnix_kv.Parse.Views.{blocks_view, All-Unit}
use llumnix_kv.Parse.Side.{Side, side_at, side_index, side_room, side-Fits}
use llumnix_kv.Parse.{Cursor, tokens_left, gt_token, gt_step}

module _ (env : Env) (p_token_size k_size d_token_size ntpb group_off : ℕ)
    (p_blocks d_blocks : List ℕ) (bounds : IpcBlockBounds) (swap : Bool) where
  abbrev pub p_at : ℕ → ℕ
  p_at = paged p_blocks ntpb (p_token_size * ntpb) p_token_size 0

  abbrev pub d_at : ℕ → ℕ
  d_at = paged d_blocks ntpb (d_token_size * ntpb) d_token_size (group_off * k_size)

  -- With `swap_offsets` the "p side" is the destination.
  abbrev pub from : ℕ → ℕ
  from t = if swap then d_at t else p_at t

  abbrev pub to : ℕ → ℕ
  to t = if swap then p_at t else d_at t

  -- Both ends have room, and the counters do not wrap.
  pub record Grouped (end : ℕ) : Type 0 where
    pub valid : IsBounds bounds
    pub some_bytes : 0 < k_size
    pub some_tokens : 0 < ntpb
    pub small : end < 2 ^ 32
    pub small_page : ntpb < 2 ^ 32
    pub p_side :
        Side
          (p_token_size * ntpb)
          p_token_size
          ntpb
          0
          k_size
          (if swap then 1 else bounds.src_length_scale)
          (if swap then bounds.dst_capacity else bounds.src_capacity)
          end
          p_blocks
    pub d_side :
        Side
          (d_token_size * ntpb)
          d_token_size
          ntpb
          (group_off * k_size)
          k_size
          (if swap then bounds.src_length_scale else 1)
          (if swap then bounds.src_capacity else bounds.dst_capacity)
          end
          d_blocks

  module _ (w i end : ℕ) (v : Grouped end) (lt : w < end) (room : w % ntpb + i < ntpb) where
    token-InBounds : InBounds bounds (token_block from to k_size (w + i))
    token-InBounds =
        ends swap (side-Fits p_blocks v.p_side v.some_tokens w i lt room v.some_bytes)
          (side-Fits d_blocks v.d_side v.some_tokens w i lt room v.some_bytes)
      where
        ends :
            (b : Bool)
            → Fits k_size
                (if b then 1 else bounds.src_length_scale)
                (p_at (w + i))
                (if b then bounds.dst_capacity else bounds.src_capacity)
            → Fits k_size
                (if b then bounds.src_length_scale else 1)
                (d_at (w + i))
                (if b then bounds.src_capacity else bounds.dst_capacity)
            → InBounds bounds (record {
              src_offset = if b then d_at (w + i) else p_at (w + i);
              dst_offset = if b then p_at (w + i) else d_at (w + i);
              length = k_size;
            })
        ends true p d = record { src = d; dst = p }
        ends false p d = record { src = p; dst = d }

    -- The offsets as the code computes them.
    p_offset :
        u64 (
          u64 (get_or p_blocks (w / ntpb) 0 * u64 (p_token_size * ntpb))
          + u32 (w % ntpb + i) * p_token_size)
        ≡ p_at (w + i)
    p_offset =
        rw
          (
            side_at p_blocks v.p_side v.some_tokens w i room,
            u32_lem {n = w % ntpb + i} (omega (arith, v.small_page)),
          )
          (u64_place (get_or p_blocks (w / ntpb) 0) (p_token_size * ntpb)
              ((w % ntpb + i) * p_token_size) _
              (omega (arith, side_room p_blocks v.p_side v.some_tokens w i lt room)) v.p_side.small
            ∙ omega arith)

    d_offset :
        u64 (
          u64 (
            u64 (get_or d_blocks (w / ntpb) 0 * u64 (d_token_size * ntpb))
            + u32 (w % ntpb + i) * d_token_size)
          + group_off * k_size)
        ≡ d_at (w + i)
    d_offset =
        rw
          (
            side_at d_blocks v.d_side v.some_tokens w i room,
            u32_lem {n = w % ntpb + i} (omega (arith, v.small_page)),
          )
          (let place =
              u64_place (get_or d_blocks (w / ntpb) 0) (d_token_size * ntpb)
                ((w % ntpb + i) * d_token_size) _
                (omega (arith, side_room d_blocks v.d_side v.some_tokens w i lt room))
                v.d_side.small in
            omega
              (arith, place, side_room d_blocks v.d_side v.some_tokens w i lt room, v.d_side.small))

    token_ok :
        (blocks : List IpcBlock)
        → gt_token p_token_size k_size d_token_size group_off
            (u64 (get_or p_blocks (w / ntpb) 0 * u64 (p_token_size * ntpb)))
            (u64 (get_or d_blocks (w / ntpb) 0 * u64 (d_token_size * ntpb)))
            (w % ntpb)
            bounds
            swap
            i
            blocks
          ≡ ok (push_back blocks (token_block from to k_size (w + i)))
    unfolding gt_token
    token_ok blocks =
        rw (p_offset, d_offset)
          (append_at blocks bounds (token_block from to k_size (w + i)) v.valid token-InBounds refl
            refl refl)

  abbrev step : Cursor → Result Cursor
  step =
      gt_step env p_token_size k_size d_token_size ntpb group_off (u64 (p_token_size * ntpb))
        (u64 (d_token_size * ntpb)) p_blocks d_blocks bounds swap

  abbrev taken : Cursor → ℕ
  taken c = min (ntpb - c.wrote_tokens % ntpb) c.left_tokens

  module _ (c : Cursor) (end : ℕ) (v : Grouped end) (sum : c.wrote_tokens + c.left_tokens ≡ end)
      (more : 0 < c.left_tokens) where
    abbrev page_loop : Result (List IpcBlock)
    page_loop =
        for_range (taken c) 0
          (gt_token p_token_size k_size d_token_size group_off
            (u64 (get_or p_blocks (c.wrote_tokens / ntpb) 0 * u64 (p_token_size * ntpb)))
            (u64 (get_or d_blocks (c.wrote_tokens / ntpb) 0 * u64 (d_token_size * ntpb)))
            (c.wrote_tokens % ntpb) bounds swap)
          c.blocks

    page_total :
        page_loop ≡ ok (c.blocks ++ token_blocks from to k_size (c.wrote_tokens + 0) (taken c))
    page_total =
        token_loop from to k_size _ c.wrote_tokens (taken c) (taken c) 0 c.blocks
          (λ i blocks lt.
            token_ok c.wrote_tokens i end v (omega arith)
              (omega (arith, taken_room c.wrote_tokens ntpb c.left_tokens v.some_tokens)) blocks)
          (omega arith)

    index_ok :
        (ltb (c.wrote_tokens / ntpb) (length p_blocks)
          && ltb (c.wrote_tokens / ntpb) (length d_blocks))
        ≡ true
    index_ok =
        rw
          (
            lt→ltb _ _ (side_index p_blocks v.p_side v.some_tokens c.wrote_tokens (omega arith)),
            lt→ltb _ _ (side_index d_blocks v.d_side v.some_tokens c.wrote_tokens (omega arith)),
          )
          refl

    step_ok :
        step c
        ≡ ok (record {
          wrote_tokens = c.wrote_tokens + taken c;
          left_tokens = c.left_tokens - taken c;
          blocks = c.blocks ++ token_blocks from to k_size (c.wrote_tokens + 0) (taken c);
        })
    unfolding gt_step ◌>>=◌
    step_ok =
        rw
          (
            div_ok c.wrote_tokens ntpb v.some_tokens,
            assert_ok env.asserts _ index_ok,
            mod_by_ok c.wrote_tokens ntpb v.some_tokens,
            at_ok p_blocks _ 0
                (side_index p_blocks v.p_side v.some_tokens c.wrote_tokens (omega arith)),
            at_ok d_blocks _ 0
                (side_index d_blocks v.d_side v.some_tokens c.wrote_tokens (omega arith)),
            page_total,
            u32_lem {n = c.wrote_tokens + taken c} (omega (arith, v.small)),
          )
          refl

    advance : Advance (blocks_view from to k_size) step c
    advance = record {
      next = _;
      count = taken c;
      emitted = token_blocks from to k_size (c.wrote_tokens + 0) (taken c);
      runs = step_ok;
      appends = refl;
      shows =
          let same : c.wrote_tokens + 0 ≡ c.wrote_tokens = omega arith in
          ap (λ (t : ℕ). token_blocks from to k_size t (taken c)) same;
      wrote = refl;
      left = omega arith;
      some = taken_pos c.wrote_tokens ntpb c.left_tokens v.some_tokens more;
      emits = All-Unit _;
    }

  -- From any cursor the loop succeeds, and appends one block for each token left.
  pub gt_loop_total :
      (start : Cursor)
      → Grouped (start.wrote_tokens + start.left_tokens)
      → (t : Cursor) × (while (suc start.left_tokens) tokens_left step start ≡ ok t)
        × (t.blocks
            ≡ start.blocks ++ token_blocks from to k_size start.wrote_tokens start.left_tokens)
  gt_loop_total start v =
      let (t, new, e, a, b, _) =
        progress_total (blocks_view from to k_size) start step
          (λ c sum more. advance c _ v sum more) in
      (t, e, a ∙ ap (◌++◌ start.blocks) b)
