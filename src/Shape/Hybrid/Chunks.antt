-- ===== src/Shape/Hybrid/Chunks.antt =====
-- What `do_parse_block_aligned_send` (kvtransfer/src/parse_block_qwen3_next.cpp) sends for one task, and for a
-- request whose tokens come in two tasks.
use native.Mathlib.Nat.{div-add-mod', div-le_of_le-mul}
use llumnix_kv.Base.{
  ℕ, ◌+◌, ◌-◌, ◌/◌, ◌<◌, ◌≤◌, ◌≡◌, refl, sym, ap, ◌∙◌, true, false, List, ◌++◌, length,
  append_assoc, append-nil, u32_lem, ◌==◌, if◌then◌else◌, ok, ◌>>=◌, assert_ok, div_ok, ==_iff,
  page_lt, page_room, arith, inl, inr, Bool-cases,
}
use llumnix_kv.Env.{Env}
use llumnix_kv.Types.{IpcBlock, ReqSendTask}
use llumnix_kv.Bounds.{IpcBlockBounds}
use llumnix_kv.Parse.{Cursor}
use llumnix_kv.Shape.Hybrid.Aligned.{send_trailing, do_parse_block_aligned_send}
use llumnix_kv.Shape.Hybrid.WholeBlocks.{Whole, loop_sends, trailing_sends}
use llumnix_kv.Shape.Hybrid.Pages.{pages, pages-append}

-- The tokens of a task end here.
abbrev pub end_of : ReqSendTask → ℕ
end_of task = task.seen_tokens + task.new_tokens

-- The first block that is not sent once a task is.
abbrev pub stop_of : ReqSendTask → List ℕ → ℕ → ℕ
stop_of task src n = if task.reach_last_token then length src else end_of task / n

pages_join :
    (size : ℕ) (src dst : List ℕ) (a b c : ℕ)
    → a ≤ b
    → b ≤ c
    → pages size src dst a (b - a) ++ pages size src dst b (c - b) ≡ pages size src dst a (c - a)
pages_join size src dst a b c h k =
    let at : a + (b - a) ≡ b = omega arith in
    let all : b - a + (c - b) ≡ c - a = omega arith in
    ap (λ k. pages size src dst a (b - a) ++ pages size src dst k (c - b)) (sym at)
    ∙ pages-append size src dst a (b - a) (c - b)
    ∙ ap (pages size src dst a) all

-- A later token is in the same page or a later one.
page_mono : (x y n : ℕ) → 0 < n → x ≤ y → x / n ≤ y / n
page_mono x y n some h =
    let b = page_lt x n (y / n + 1) some (omega (arith, div-add-mod' y n, page_room y n some, h)) in
    omega (arith, b)

module _ (env : Env) (size : ℕ) (task : ReqSendTask) (src dst : List ℕ) (n : ℕ)
    (bounds : IpcBlockBounds) (v : Whole env size task src dst n bounds (end_of task)) where
  pages_in : (end_of task + n - 1) / n ≤ length src
  pages_in =
      let h =
        page_lt (end_of task + n - 1) n (length src + 1) v.some_tokens
          (omega (arith, v.covers, v.some_tokens)) in
      omega (arith, h)

  send_trailing_sends :
      (c : Cursor)
      → c.wrote_tokens ≡ end_of task
      → send_trailing env size src dst n bounds c
        ≡ ok (
            c.blocks
            ++ pages size src dst
                ((end_of task + n - 1) / n)
                (length src - (end_of task + n - 1) / n))
  unfolding send_trailing ◌>>=◌
  send_trailing_sends c e =
      let b : (length src == length dst) ≡ true =
        (==_iff (length src) (length dst)).1 v.same_number in
      rw
        (
          e,
          u32_lem {n = end_of task + n - 1} (omega (arith, v.small)),
          div_ok (end_of task + n - 1) n v.some_tokens,
          assert_ok env.asserts (length src == length dst) b,
        )
        (trailing_sends env size task src dst n bounds (end_of task) v
          (length src - (end_of task + n - 1) / n) ((end_of task + n - 1) / n) c.blocks
          (omega (arith, pages_in)))

  -- Under the same conditions, for a task with tokens, `do_parse_block_aligned_send` returns, keeps
  -- the blocks that were there and appends one whole block for each index from the block of the
  -- first token on: up to the last block that the tokens complete, or, for the last task of a
  -- request, up to the end of the lists.
  pub aligned_send_total :
      (blocks : List IpcBlock)
      → 0 < task.new_tokens
      → do_parse_block_aligned_send env size task src dst n bounds blocks
        ≡ ok (
            blocks
            ++ pages size src dst
                (task.seen_tokens / n)
                (stop_of task src n - task.seen_tokens / n))
  unfolding do_parse_block_aligned_send ◌>>=◌
  aligned_send_total blocks some =
      let first = task.seen_tokens / n in
      let c : Cursor = record {
        wrote_tokens = task.seen_tokens;
        left_tokens = task.new_tokens;
        blocks = blocks;
      } in
      let on : (task.new_tokens == 0) ≡ false = ground arith in
      let none_yet : first - first ≡ 0 = omega arith in
      let (t, e, s, stop) =
        loop_sends env size task src dst n bounds (end_of task) v first blocks c (record {
          sum = refl;
          from = rw on (omega arith);
          sent = rw (on, none_yet) (sym (append-nil blocks));
        }) in
      let off : (t.left_tokens == 0) ≡ true = ground arith in
      let wrote : t.wrote_tokens ≡ end_of task =
        omega (arith, s.sum, (==_iff t.left_tokens 0).0 off) in
      elim (Bool-cases task.reach_last_token) [
        | inl b ↦
            let up = (end_of task + n - 1) / n in
            let from : first ≤ up = rw (off, b) at s.from in
            let sent : t.blocks ≡ blocks ++ pages size src dst first (up - first) =
              rw (off, b) at s.sent in
            rw (e, b, send_trailing_sends t wrote, sent)
              (ap ok (
                append_assoc blocks (pages size src dst first (up - first))
                  (pages size src dst up (length src - up))
                ∙ ap (λ ps. blocks ++ ps)
                    (pages_join size src dst first up (length src) from pages_in)))
        | inr b ↦
            let sent : t.blocks ≡ blocks ++ pages size src dst first (end_of task / n - first) =
              rw (off, b) at s.sent in
            rw (e, b) (ap ok sent)
      ]

-- A task of the same request that takes over where another, not the last, ends; and both in one.
pub record Chunked (first second whole : ReqSendTask) : Type 0 where
  pub begins : whole.seen_tokens ≡ first.seen_tokens
  pub follows : second.seen_tokens ≡ end_of first
  pub adds : whole.new_tokens ≡ first.new_tokens + second.new_tokens
  pub not_last : first.reach_last_token ≡ false
  pub same_last : whole.reach_last_token ≡ second.reach_last_token
  pub some_first : 0 < first.new_tokens
  pub some_second : 0 < second.new_tokens

module _ (env : Env) (size : ℕ) (src dst : List ℕ) (n : ℕ) (bounds : IpcBlockBounds)
    (first second whole : ReqSendTask) (v : Whole env size whole src dst n bounds (end_of whole))
    (h : Chunked first second whole) where
  ends : end_of second ≡ end_of whole
  ends = omega (arith, h.begins, h.follows, h.adds)

  earlier-Whole :
      (task : ReqSendTask)
      → end_of task ≤ end_of whole
      → Whole env size task src dst n bounds (end_of task)
  earlier-Whole task le = record {
    valid = v.valid;
    unscaled = v.unscaled;
    some_bytes = v.some_bytes;
    some_tokens = v.some_tokens;
    small = omega (arith, v.small, le);
    covers = omega (arith, v.covers, le);
    same_number = v.same_number;
    src_fits = v.src_fits;
    dst_fits = v.dst_fits;
  }

  stop_second : stop_of second src n ≡ stop_of whole src n
  stop_second = rw (h.same_last, ends) refl

  high : stop_of first src n ≤ stop_of whole src n
  high = rw h.not_last (elim (Bool-cases whole.reach_last_token) [
    | inl b ↦ rw b (div-le_of_le-mul n (omega (arith, v.covers, ends, h.follows)))
    | inr b ↦
        rw b
          (page_mono (end_of first) (end_of whole) n v.some_tokens (omega (arith, ends, h.follows)))
  ])

  -- Where whole blocks lie within the layers and the lists cover the tokens (`Whole`), sending a
  -- request in two tasks with tokens, of which the first is not the last of the request, leaves the
  -- same blocks, in the same order, as sending it in one task: a block that the first task leaves
  -- unfinished is sent by the second, once.
  pub aligned_send-chunks :
      (blocks : List IpcBlock)
      → (do_parse_block_aligned_send env size first src dst n bounds blocks >>= λ sent.
          do_parse_block_aligned_send env size second src dst n bounds sent)
        ≡ do_parse_block_aligned_send env size whole src dst n bounds blocks
  unfolding ◌>>=◌
  aligned_send-chunks blocks =
      let one = earlier-Whole first (omega (arith, ends, h.follows)) in
      let two = earlier-Whole second (omega (arith, ends)) in
      let a = aligned_send_total env size first src dst n bounds one blocks h.some_first in
      let some : 0 < whole.new_tokens = omega (arith, h.adds, h.some_first) in
      let c = aligned_send_total env size whole src dst n bounds v blocks some in
      let middle : second.seen_tokens / n ≡ stop_of first src n = rw (h.not_last, h.follows) refl in
      let stops : stop_of second src n ≡ stop_of whole src n = stop_second in
      let start : whole.seen_tokens / n ≡ first.seen_tokens / n = rw h.begins refl in
      let sent =
        blocks
        ++ pages size src dst (first.seen_tokens / n)
            (stop_of first src n - first.seen_tokens / n) in
      let b = aligned_send_total env size second src dst n bounds two sent h.some_second in
      let low : first.seen_tokens / n ≤ stop_of first src n =
        rw h.not_last (page_mono first.seen_tokens (end_of first) n v.some_tokens (omega arith)) in
      rw (a, b, c, middle, stops, start)
        (ap ok (
          append_assoc blocks _ _
          ∙ ap (λ ps. blocks ++ ps)
              (pages_join size src dst (first.seen_tokens / n) (stop_of first src n)
                (stop_of whole src n) low high)))
