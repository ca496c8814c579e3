-- ===== src/Parse/EqLoop.antt =====
-- `do_parse_block_send_p_eq_d` copies exactly the bytes of the new tokens.
use llumnix_kv.Base.{
  [], ◌∷◌, ◌++◌, sym, ◌∙◌, ◌>>=◌, ℕ, suc, ◌+◌, ◌-◌, ◌*◌, ◌/◌, ◌%◌, ◌^◌, ◌<◌, ◌≤◌, ◌≡◌, refl, List,
  min, length, get_or, push_back, u64, u32_lem, lt→ltb, ok, assert_ok, at_ok, div_ok, mod_by_ok,
  while, mul_mono, page_lt, taken_room, taken_pos, page_same, place_same, All, All-get_or, arith,
}
use llumnix_kv.Env.{Env}
use llumnix_kv.Types.{IpcBlock}
use llumnix_kv.Copies.{tokens, bytes, paged, tokens-run}
use llumnix_kv.Bounds.{IpcBlockBounds, append_ipc_block_checked}
use llumnix_kv.Bounds.Checked.{IsBounds, InBounds, Fits, append_at}
use llumnix_kv.Parse.Progress.{View, Advance, progress_total}
use llumnix_kv.Parse.Views.{bytes_view, bytes_one}
use llumnix_kv.Parse.{Cursor, tokens_left, p_eq_d_step}

module _ (env : Env) (block_size token_size ntpb : ℕ) (src_blocks dst_blocks : List ℕ)
    (bounds : IpcBlockBounds) where
  -- A whole block lies in each layer, blocks are made up of tokens, and the counters do not wrap.
  pub record Fitting (end : ℕ) : Type 0 where
    pub valid : IsBounds bounds
    pub unscaled : bounds.src_length_scale ≡ 1
    pub some_token : 0 < token_size
    pub some_tokens : 0 < ntpb
    pub whole : ntpb * token_size ≡ block_size
    pub small : end < 2 ^ 32
    pub src_covers : end ≤ ntpb * length src_blocks
    pub dst_covers : end ≤ ntpb * length dst_blocks
    pub src_fits : All (λ id. id * block_size + block_size ≤ bounds.src_capacity) src_blocks
    pub dst_fits : All (λ id. id * block_size + block_size ≤ bounds.dst_capacity) dst_blocks

  abbrev pub src_at : ℕ → ℕ
  src_at = paged src_blocks ntpb block_size token_size 0

  abbrev pub dst_at : ℕ → ℕ
  dst_at = paged dst_blocks ntpb block_size token_size 0

  -- Whole blocks lie within `room`, which may be less than the layers.
  pub record Roomy (room : IpcBlockBounds) : Type 0 where
    pub unit : room.src_length_scale ≡ 1
    pub src_in : All (λ id. id * block_size + block_size ≤ room.src_capacity) src_blocks
    pub dst_in : All (λ id. id * block_size + block_size ≤ room.dst_capacity) dst_blocks

  abbrev view : IpcBlockBounds → View (ℕ × ℕ)
  view room = bytes_view src_at dst_at token_size (InBounds room)

  -- The tokens that a round takes, and the block that it emits.
  abbrev taken : Cursor → ℕ
  taken c = min (ntpb - c.wrote_tokens % ntpb) c.left_tokens

  abbrev chunk : Cursor → IpcBlock
  chunk c = record {
    src_offset = src_at c.wrote_tokens;
    dst_offset = dst_at c.wrote_tokens;
    length = taken c * token_size;
  }

  module _ (c : Cursor) (end : ℕ) (v : Fitting end) (sum : c.wrote_tokens + c.left_tokens ≡ end)
      (more : 0 < c.left_tokens) where
    page_in : (pages : ℕ) → end ≤ ntpb * pages → c.wrote_tokens / ntpb < pages
    page_in pages h = page_lt c.wrote_tokens ntpb pages v.some_tokens (omega arith)

    -- The bytes of the tokens taken end within their block.
    chunk_room : c.wrote_tokens % ntpb * token_size + taken c * token_size ≤ block_size
    chunk_room = omega (
      arith,
      mul_mono (c.wrote_tokens % ntpb + taken c) ntpb token_size
          (taken_room c.wrote_tokens ntpb c.left_tokens v.some_tokens),
      v.whole,
    )

    chunk-Fits :
        (blocks : List ℕ) (capacity scale : ℕ)
        → end ≤ ntpb * length blocks
        → All (λ id. id * block_size + block_size ≤ capacity) blocks
        → scale ≡ 1
        → Fits
            (taken c * token_size)
            scale
            (paged blocks ntpb block_size token_size 0 c.wrote_tokens)
            capacity
    chunk-Fits blocks capacity scale covers fits one = record {
      nonempty =
          grind
            (arith, taken_pos c.wrote_tokens ntpb c.left_tokens v.some_tokens more, v.some_token);
      within =
          let unit : taken c * token_size * scale ≡ taken c * token_size = rw one (omega arith) in
          let page =
            All-get_or (λ (id : ℕ). id * block_size + block_size ≤ capacity) blocks
              (c.wrote_tokens / ntpb) 0 (page_in (length blocks) covers) fits in
          omega (arith, unit, chunk_room, page);
    }

    chunk-in : (room : IpcBlockBounds) → Roomy room → InBounds room (chunk c)
    chunk-in room r = record {
      src =
          chunk-Fits src_blocks room.src_capacity room.src_length_scale v.src_covers r.src_in
            r.unit;
      dst = chunk-Fits dst_blocks room.dst_capacity 1 v.dst_covers r.dst_in refl;
    }

    chunk-InBounds : InBounds bounds (chunk c)
    chunk-InBounds =
        chunk-in bounds (record { unit = v.unscaled; src_in = v.src_fits; dst_in = v.dst_fits })

    appended :
        append_ipc_block_checked c.blocks bounds
          (u64 (
            get_or src_blocks (c.wrote_tokens / ntpb) 0 * block_size
            + c.wrote_tokens % ntpb * token_size))
          (u64 (
            get_or dst_blocks (c.wrote_tokens / ntpb) 0 * block_size
            + c.wrote_tokens % ntpb * token_size))
          (u64 (taken c * token_size))
        ≡ ok (push_back c.blocks (chunk c))
    appended =
        append_at c.blocks bounds (chunk c) v.valid chunk-InBounds
          (omega (arith, chunk-InBounds.src.within, v.valid.src_small))
          (omega (arith, chunk-InBounds.dst.within, v.valid.dst_small))
          (omega (arith, chunk-InBounds.dst.within, v.valid.dst_small))

    step_ok :
        p_eq_d_step env block_size token_size ntpb src_blocks dst_blocks bounds c
        ≡ ok (record {
          wrote_tokens = c.wrote_tokens + taken c;
          left_tokens = c.left_tokens - taken c;
          blocks = push_back c.blocks (chunk c);
        })
    unfolding p_eq_d_step ◌>>=◌
    step_ok = rw (
      div_ok c.wrote_tokens ntpb v.some_tokens,
      mod_by_ok c.wrote_tokens ntpb v.some_tokens,
      assert_ok env.asserts _ (lt→ltb _ _ (page_in _ v.src_covers)),
      at_ok src_blocks _ 0 (page_in _ v.src_covers),
      assert_ok env.asserts _ (lt→ltb _ _ (page_in _ v.dst_covers)),
      at_ok dst_blocks _ 0 (page_in _ v.dst_covers),
      appended,
      u32_lem {n = c.wrote_tokens + taken c} (omega (arith, v.small)),
    )

    -- The tokens taken are one span.
    run_at :
        (blocks : List ℕ)
        → (i : ℕ) → i < taken c
        → paged blocks ntpb block_size token_size 0 (c.wrote_tokens + i)
          ≡ paged blocks ntpb block_size token_size 0 c.wrote_tokens + i * token_size
    run_at blocks i h =
        let room : c.wrote_tokens % ntpb + i < ntpb =
          omega (arith, taken_room c.wrote_tokens ntpb c.left_tokens v.some_tokens) in
        rw
          (
            page_same c.wrote_tokens ntpb i v.some_tokens room,
            place_same c.wrote_tokens ntpb i v.some_tokens room,
          )
          (omega arith)

    advance :
        (room : IpcBlockBounds)
        → Roomy room
        → Advance
            (view room)
            (p_eq_d_step env block_size token_size ntpb src_blocks dst_blocks bounds)
            c
    advance room r = record {
      next = _;
      count = taken c;
      emitted = chunk c ∷ [];
      runs = step_ok;
      appends = refl;
      shows =
          bytes_one (chunk c)
          ∙ sym (
              tokens-run src_at dst_at token_size c.wrote_tokens (taken c) (run_at src_blocks)
                (run_at dst_blocks));
      wrote = refl;
      left = omega arith;
      some = taken_pos c.wrote_tokens ntpb c.left_tokens v.some_tokens more;
      emits = (chunk-in room r, tt);
    }

  -- From any cursor the loop succeeds, and appends the bytes of the tokens left.
  pub loop_total :
      (room : IpcBlockBounds) (start : Cursor)
      → Roomy room
      → Fitting (start.wrote_tokens + start.left_tokens)
      → (t : Cursor) × (new : List IpcBlock) × (while
            (suc start.left_tokens)
            tokens_left
            (p_eq_d_step env block_size token_size ntpb src_blocks dst_blocks bounds)
            start
          ≡ ok t)
        × (t.blocks ≡ start.blocks ++ new)
        × (bytes new ≡ tokens src_at dst_at token_size start.wrote_tokens start.left_tokens)
        × All (InBounds room) new
  loop_total room start r v =
      progress_total (view room) start _ (λ c sum more. advance c _ v sum more room r)
