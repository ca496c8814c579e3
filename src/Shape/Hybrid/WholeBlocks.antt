-- ===== src/Shape/Hybrid/WholeBlocks.antt =====
-- `do_parse_block_aligned_send` (kvtransfer/src/parse_block_qwen3_next.cpp) sends each block that is complete
-- once, whole, and all that are left with the last task.

use llumnix_kv.Base.{
  ℕ, zero, suc, ◌+◌, ◌-◌, ◌*◌, ◌/◌, ◌%◌, ◌^◌, ◌<◌, ◌≤◌, ◌≡◌, refl, sym, ap, ◌∙◌, Bool, true, false,
  ◌||◌, List, [], ◌∷◌, ◌++◌, min, length, get_or, push_back, append_assoc, append-nil, u64, u32_lem,
  ltb, ◌==◌, lt→ltb, if◌then◌else◌, ok, ◌>>=◌, assert, assert_ok, at_ok, div_ok, mod_by_ok, while,
  while_total, for_range, page_lt, page_room, taken_room, taken_pos, All, All-get_or, arith, inl,
  inr, Bool-cases,
}
use llumnix_kv.Env.{Env}
use llumnix_kv.Types.{IpcBlock, ReqSendTask}
use llumnix_kv.Bounds.{IpcBlockBounds, append_ipc_block_checked}
use llumnix_kv.Bounds.Checked.{IsBounds, InBounds, append_at}
use llumnix_kv.Parse.{Cursor, tokens_left}
use llumnix_kv.Shape.Hybrid.Aligned.{aligned_length, whole_block, aligned_step}
use llumnix_kv.Shape.Hybrid.Pages.{next_page, pages_to, page_end, page, pages, pages-append}

aligned_length_lem :
    (env : Env) (size : ℕ) (task : ReqSendTask) (n r taken : ℕ)
    → r < n
    → 0 < taken
    → r + taken ≤ n
    → aligned_length env size task n r taken
      ≡ ok (if task.reach_last_token || r + taken == n then size else 0)
unfolding aligned_length ◌>>=◌ assert
aligned_length_lem env size task n r taken h some fits = ground arith

module _ (env : Env) (size : ℕ) (task : ReqSendTask) (src dst : List ℕ) (n : ℕ)
    (bounds : IpcBlockBounds) where
  abbrev page_at : ℕ → IpcBlock
  page_at = page size src dst

  abbrev pages_from : ℕ → ℕ → List IpcBlock
  pages_from = pages size src dst

  -- Whole blocks lie within both layers, the lists cover the tokens, and no counter wraps.
  pub record Whole (end : ℕ) : Type 0 where
    pub valid : IsBounds bounds
    pub unscaled : bounds.src_length_scale ≡ 1
    pub some_bytes : 0 < size
    pub some_tokens : 0 < n
    pub small : end + n < 2 ^ 32
    pub covers : end ≤ n * length src
    pub same_number : length src ≡ length dst
    pub src_fits : All (λ id. id * size + size ≤ bounds.src_capacity) src
    pub dst_fits : All (λ id. id * size + size ≤ bounds.dst_capacity) dst

  -- The first block that is not sent once the tokens before `end` are.
  abbrev pub sent_to : ℕ → ℕ
  sent_to end = if task.reach_last_token then (end + n - 1) / n else end / n

  module _ (end : ℕ) (v : Whole end) where
    page-InBounds : (i : ℕ) → i < length src → InBounds bounds (page_at i)
    page-InBounds i h =
        let s =
          All-get_or (λ (id : ℕ). id * size + size ≤ bounds.src_capacity) src i 0 h v.src_fits in
        let d =
          All-get_or (λ (id : ℕ). id * size + size ≤ bounds.dst_capacity) dst i 0
            (omega (arith, v.same_number)) v.dst_fits in
        let unit : size * bounds.src_length_scale ≡ size = rw v.unscaled (omega arith) in
        record {
          src = record { nonempty = v.some_bytes; within = omega (arith, unit, s) };
          dst = record { nonempty = v.some_bytes; within = omega (arith, d) };
        }

    append_page :
        (i : ℕ) (blocks : List IpcBlock)
        → i < length src
        → append_ipc_block_checked blocks bounds
            (u64 (get_or src i 0 * size))
            (u64 (get_or dst i 0 * size))
            size
          ≡ ok (push_back blocks (page_at i))
    append_page i blocks h =
        let b = page-InBounds i h in
        append_at blocks bounds (page_at i) v.valid b
          (omega (arith, b.src.within, v.valid.src_small))
          (omega (arith, b.dst.within, v.valid.dst_small)) refl

    -- The tokens of a round, and whether it sends its block.
    abbrev taken : Cursor → ℕ
    taken c = min (n - c.wrote_tokens % n) c.left_tokens

    abbrev emits : Cursor → Bool
    emits c = task.reach_last_token || c.wrote_tokens % n + taken c == n

    abbrev next : Cursor → Cursor
    next c = record {
      wrote_tokens = c.wrote_tokens + taken c;
      left_tokens = c.left_tokens - taken c;
      blocks = if emits c then push_back c.blocks (page_at (c.wrote_tokens / n)) else c.blocks;
    }

    emitted :
        (b : Bool) (i : ℕ) (blocks : List IpcBlock)
        → i < length src
        → (if ltb 0 (if b then size else 0)
            then append_ipc_block_checked blocks bounds
                (u64 (get_or src i 0 * size))
                (u64 (get_or dst i 0 * size))
                (if b then size else 0)
            else ok blocks)
          ≡ ok (if b then push_back blocks (page_at i) else blocks)
    emitted true i blocks h = rw (lt→ltb 0 size v.some_bytes) (append_page i blocks h)
    emitted false i blocks h = refl

    step_ok :
        (c : Cursor)
        → c.wrote_tokens + c.left_tokens ≡ end
        → 0 < c.left_tokens
        → aligned_step env size task src dst n bounds c ≡ ok (next c)
    unfolding aligned_step ◌>>=◌
    step_ok c sum more =
        let inside : c.wrote_tokens / n < length src =
          page_lt c.wrote_tokens n (length src) v.some_tokens (omega (arith, v.covers)) in
        let inside' : c.wrote_tokens / n < length dst = omega (arith, v.same_number) in
        rw
          (
            div_ok c.wrote_tokens n v.some_tokens,
            mod_by_ok c.wrote_tokens n v.some_tokens,
            lt→ltb _ _ inside,
            lt→ltb _ _ inside',
            assert_ok env.asserts true refl,
            at_ok src _ 0 inside,
            at_ok dst _ 0 inside',
            aligned_length_lem env size task n (c.wrote_tokens % n) (taken c)
                (page_room c.wrote_tokens n v.some_tokens)
                (taken_pos c.wrote_tokens n c.left_tokens v.some_tokens more)
                (taken_room c.wrote_tokens n c.left_tokens v.some_tokens),
            emitted (emits c) (c.wrote_tokens / n) c.blocks inside,
            u32_lem {n = c.wrote_tokens + taken c} (omega (arith, v.small)),
          )
          refl

    -- The first block that a cursor has not reached, or not sent.
    abbrev pub reached : Cursor → ℕ
    reached c = if c.left_tokens == 0 then sent_to end else c.wrote_tokens / n

    both :
        (a b : Bool) (i : ℕ)
        → (if a then i + 1 else if b then i + 1 else i) ≡ (if a || b then i + 1 else i)
    both true b i = refl
    both false b i = refl

    last : (a : Bool) (i : ℕ) → i + 1 ≡ (if a || true then i + 1 else i)
    last true i = refl
    last false i = refl

    reached_next :
        (c : Cursor)
        → c.wrote_tokens + c.left_tokens ≡ end
        → 0 < c.left_tokens
        → reached (next c) ≡ (if emits c then c.wrote_tokens / n + 1 else c.wrote_tokens / n)
    reached_next c sum more =
        let w = c.wrote_tokens in
        let room = taken_room w n c.left_tokens v.some_tokens in
        elim (Bool-cases (c.left_tokens - taken c == 0)) [
          | inl stop ↦
              let all : taken c ≡ c.left_tokens = ground arith in
              let e : end ≡ w + taken c = omega (arith, all) in
              let up : (end + n - 1) / n ≡ w / n + 1 = rw e (
                pages_to w n (taken c) v.some_tokens
                  (taken_pos w n c.left_tokens v.some_tokens more) room) in
              let down : end / n ≡ (if w % n + taken c == n then w / n + 1 else w / n) =
                rw e (page_end w n (taken c) v.some_tokens room) in
              rw (stop, up, down) (both task.reach_last_token (w % n + taken c == n) (w / n))
          | inr go ↦
              let full : w % n + taken c ≡ n = ground arith in
              let yes : (w % n + taken c == n) ≡ true = ground arith in
              rw (go, yes, next_page w n (taken c) v.some_tokens full)
                (last task.reach_last_token (w / n))
        ]

    -- The loop, from block `first` and with the blocks `start`.
    pub record Sending (first : ℕ) (start : List IpcBlock) (c : Cursor) : Type 0 where
      pub sum : c.wrote_tokens + c.left_tokens ≡ end
      pub from : first ≤ reached c
      pub sent : c.blocks ≡ start ++ pages_from first (reached c - first)

    sent_next :
        (b : Bool) (first i : ℕ) (start blocks : List IpcBlock)
        → first ≤ i
        → blocks ≡ start ++ pages_from first (i - first)
        → (if b then push_back blocks (page_at i) else blocks)
          ≡ start ++ pages_from first ((if b then i + 1 else i) - first)
    sent_next true first i start blocks h e =
        let at : first + (i - first) ≡ i = omega arith in
        let more : i - first + 1 ≡ i + 1 - first = omega arith in
        let one : page_at (first + (i - first)) ∷ [] ≡ page_at i ∷ [] = rw at refl in
        rw e (
          append_assoc start (pages_from first (i - first)) (page_at i ∷ [])
          ∙ ap (λ ps. start ++ ps)
              (ap (λ ps. pages_from first (i - first) ++ ps) (sym one)
                ∙ pages-append size src dst first (i - first) 1
                ∙ ap (pages_from first) more))
    sent_next false first i start blocks h e = e

    Sending-next :
        (first : ℕ) (start : List IpcBlock) (c : Cursor)
        → 0 < c.left_tokens
        → Sending first start c
        → Sending first start (next c)
    Sending-next first start c more s =
        let on : (c.left_tokens == 0) ≡ false = ground arith in
        let from : first ≤ c.wrote_tokens / n = rw on at s.from in
        let sent : c.blocks ≡ start ++ pages_from first (c.wrote_tokens / n - first) =
          rw on at s.sent in
        let r = reached_next c s.sum more in
        record {
          sum = omega (arith, s.sum);
          from = rw r (grown (emits c) (c.wrote_tokens / n) first from);
          sent = rw r (sent_next (emits c) first (c.wrote_tokens / n) start c.blocks from sent);
        }
      where
        grown : (b : Bool) (i first : ℕ) → first ≤ i → first ≤ (if b then i + 1 else i)
        grown true i first h = omega arith
        grown false i first h = h

    pub loop_sends :
        (first : ℕ) (start : List IpcBlock) (c : Cursor)
        → Sending first start c
        → (t : Cursor) × (while
              (suc c.left_tokens)
              tokens_left
              (aligned_step env size task src dst n bounds)
              c
            ≡ ok t)
          × Sending first start t
          × (tokens_left t ≡ false)
    loop_sends first start c s =
        while_total (Sending first start) (λ (c : Cursor). c.left_tokens) tokens_left
          (aligned_step env size task src dst n bounds)
          (λ (c : Cursor) s b.
            let more : 0 < c.left_tokens = ground arith in
            (
              next c,
              step_ok c s.sum more,
              Sending-next first start c more s,
              omega (arith, taken_pos c.wrote_tokens n c.left_tokens v.some_tokens more),
            ))
          (suc c.left_tokens) c (omega arith) s

    -- The blocks that no token stands in.
    pub trailing_sends :
        (count i : ℕ) (blocks : List IpcBlock)
        → i + count ≤ length src
        → for_range count i (whole_block size src dst bounds) blocks
          ≡ ok (blocks ++ pages_from i count)
    unfolding for_range whole_block ◌>>=◌
    trailing_sends zero i blocks h = ap ok (sym (append-nil blocks))
    trailing_sends (suc count) i blocks h =
        let inside : i < length src = omega arith in
        rw
          (
            at_ok src i 0 inside,
            at_ok dst i 0 (omega (arith, v.same_number)),
            append_page i blocks inside,
          )
          (trailing_sends count (i + 1) (push_back blocks (page_at i)) (omega arith)
            ∙ ap ok (append_assoc blocks (page_at i ∷ []) (pages_from (i + 1) count)))
