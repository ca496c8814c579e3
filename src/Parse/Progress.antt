-- ===== src/Parse/Progress.antt =====
-- The loops over the tokens left: a step that emits what the tokens that it takes ask for makes a loop
-- that emits what they all ask for.
use llumnix_kv.Base.{
  ℕ, suc, ◌+◌, ◌<◌, ◌≡◌, refl, sym, ap, ◌∙◌, true, List, [], ◌++◌, append_assoc, append-nil, Result,
  ok, while, while_total, All, All-append, ltb→lt, arith,
}
use llumnix_kv.Types.{IpcBlock}
use llumnix_kv.Parse.{Cursor, tokens_left}

-- What is seen of a list of blocks, what the `n` tokens from `t` ask for, and what each block meets.
pub record View (X : Type 0) : Type 1 where
  pub seen : List IpcBlock → List X
  pub want : ℕ → ℕ → List X
  pub Good : IpcBlock → Type 0
  pub seen-nil : seen [] ≡ []
  pub seen-append : (xs ys : List IpcBlock) → seen (xs ++ ys) ≡ seen xs ++ seen ys
  pub want-zero : (t : ℕ) → want t 0 ≡ []
  pub want-append : (t a b : ℕ) → want t (a + b) ≡ want t a ++ want (t + a) b

-- What a step does at a cursor with tokens left: it takes `count` of them.
pub record Advance {X : Type 0} (view : View X) (step : Cursor → Result Cursor) (c : Cursor)
    : Type 0 where
  pub next : Cursor
  pub count : ℕ
  pub emitted : List IpcBlock
  pub runs : step c ≡ ok next
  pub appends : next.blocks ≡ c.blocks ++ emitted
  pub shows : view.seen emitted ≡ view.want c.wrote_tokens count
  pub wrote : next.wrote_tokens ≡ c.wrote_tokens + count
  pub left : next.left_tokens + count ≡ c.left_tokens
  pub some : 0 < count
  pub emits : All view.Good emitted

module _ {X : Type 0} (view : View X) (start : Cursor) where
  open view use {seen, want}

  -- Where the loop stands, having emitted `new`.
  record Progress (c : Cursor) : Type 0 where
    new : List IpcBlock
    sum : c.wrote_tokens + c.left_tokens ≡ start.wrote_tokens + start.left_tokens
    appended : c.blocks ≡ start.blocks ++ new
    good : All view.Good new
    shown :
        seen new ++ want c.wrote_tokens c.left_tokens ≡ want start.wrote_tokens start.left_tokens

  Progress-step :
      (step : Cursor → Result Cursor) (c : Cursor)
      → Progress c
      → (a : Advance view step c) → Progress a.next
  Progress-step step c p a = record {
    new = p.new ++ a.emitted;
    sum = omega (arith, p.sum, a.wrote, a.left);
    appended = a.appends ∙ rw (p.appended, append_assoc) refl;
    good = All-append view.Good p.new a.emitted p.good a.emits;
    shown =
        rw
          (
            view.seen-append p.new a.emitted,
            a.shows,
            a.wrote,
            append_assoc,
            ← view.want-append c.wrote_tokens a.count a.next.left_tokens,
          )
          (let whole : a.count + a.next.left_tokens ≡ c.left_tokens = omega (arith, a.left) in
            rw whole p.shown);
  }

  -- The loop succeeds, and appends blocks that show what the tokens left ask for.
  pub progress_total :
      (step : Cursor → Result Cursor)
      → ((c : Cursor)
          → c.wrote_tokens + c.left_tokens ≡ start.wrote_tokens + start.left_tokens
          → 0 < c.left_tokens
          → Advance view step c)
      → (t : Cursor) × (new : List IpcBlock) × (while (suc start.left_tokens) tokens_left step start
          ≡ ok t)
        × (t.blocks ≡ start.blocks ++ new)
        × (seen new ≡ want start.wrote_tokens start.left_tokens)
        × All view.Good new
  progress_total step advance =
      let (t, e, p, stop) =
        while_total Progress (λ c. c.left_tokens) tokens_left step round (suc start.left_tokens)
          start (omega arith) begin in
      let finished : t.left_tokens ≡ 0 = ground (arith, stop) in
      (
        t,
        p.new,
        e,
        p.appended,
        sym (append-nil (seen p.new))
            ∙ ap (◌++◌ (seen p.new)) (sym (rw finished (view.want-zero t.wrote_tokens)))
            ∙ p.shown,
        p.good,
      )
    where
      begin : Progress start
      begin = record {
        new = [];
        sum = refl;
        appended = sym (append-nil start.blocks);
        good = tt;
        shown = rw view.seen-nil refl;
      }

      round :
          (c : Cursor)
          → Progress c
          → tokens_left c ≡ true
          → (out : Cursor) × (step c ≡ ok out) × Progress out × (out.left_tokens < c.left_tokens)
      round c p b =
          let a = advance c p.sum (ltb→lt _ _ b) in
          (a.next, a.runs, Progress-step step c p a, omega (arith, a.left, a.some))
