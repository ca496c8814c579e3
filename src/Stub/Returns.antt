-- ===== src/Stub/Returns.antt =====
-- `do_task` (kvtransfer/src/tx_stub.cpp) returns, whatever exception the transfer throws.
use llumnix_kv.Base.{
  ◌>>=◌, ◌<◌, ◌≡◌, refl, inl, inr, Bool, true, false, ◌&&◌, ◌||◌, not, List, [], ◌∷◌, push_back,
  length, ltb, lt→ltb, ◌==◌, if◌then◌else◌, Bool-cases, Error, ok, err, assert, assert_ok, for_each,
  All,
}
use llumnix_kv.Env.{Env}
use llumnix_kv.Types.{ReqState, States, ReqSendTask}
use llumnix_kv.Shape.{sizes_eq}
use llumnix_kv.Stub.Context.{TaskContext, Step, with_ch}
use llumnix_kv.Stub.Task.{
  KvSendStub, Calls, set_state, state, is_inprocess, is_failed, Sorted, sort_task, try_send,
  is_exception, fail_all, Outcome, handle, settle, do_task,
}
use llumnix_kv.Stub.Sorted.{to_send, to_finish, sort_loop}

-- A request that is not finished.
abbrev pub Open : States → ReqSendTask → Type 0
Open st t = (is_inprocess (state st t) || is_failed (state st t)) ≡ true

-- A task for this sender, whose request is not finished.
pub record Addressed (stub : KvSendStub) (st : States) (t : ReqSendTask) : Type 0 where
  pub inst : sizes_eq t.req.dst_inst_id stub.dstid ≡ true
  pub worker : (t.req.dst_worker_id == stub.dstworkerid) ≡ true
  pub unfinished : Open st t

unskipped :
    (r : ReqState) (none_ : Bool)
    → (is_inprocess r || is_failed r) ≡ true
    → (none_ || is_failed r) ≡ false
    → is_inprocess r ≡ true
unskipped ReqState.inprocess n h k = refl
unskipped ReqState.failed true h k = absurd (cc)
unskipped ReqState.failed false h k = absurd (cc)
unskipped ReqState.finished n h k = absurd (cc)

-- An assertion under `if (!skip)`.
assert_unless :
    (checked skip c : Bool) → (skip ≡ false → c ≡ true) → assert (checked && not skip) c ≡ ok tt
unfolding assert
assert_unless true true c h = refl
assert_unless true false c h = assert_ok true c (h refl)
assert_unless false skip c h = refl

sort_returns :
    (env : Env) (stub : KvSendStub) (st : States) (t : ReqSendTask) (s : Sorted)
    → Addressed stub st t
    → (s' : Sorted) × (sort_task env stub st t s ≡ ok s')
unfolding sort_task ◌>>=◌
sort_returns env stub st t s a =
    let skip = t.new_tokens == 0 || is_failed (state st t) in
    let third : assert (env.asserts && not skip) (is_inprocess (state st t)) ≡ ok tt =
      assert_unless env.asserts skip (is_inprocess (state st t))
        (unskipped (state st t) (t.new_tokens == 0) a.unfinished) in
    (
      record {
        send_req = if skip then s.send_req else push_back s.send_req t;
        finished_req = if t.reach_last_token then push_back s.finished_req t else s.finished_req;
      },
      rw (assert_ok env.asserts _ a.inst, assert_ok env.asserts _ a.worker, third) refl,
    )

sort_all :
    (env : Env) (stub : KvSendStub) (st : States) (ts : List ReqSendTask) (s : Sorted)
    → All (Addressed stub st) ts
    → (s' : Sorted) × (for_each ts (sort_task env stub st) s ≡ ok s')
unfolding for_each ◌>>=◌
sort_all env stub st [] s a = (s, refl)
sort_all env stub st (t ∷ ts) s a =
    let (s', e) = sort_returns env stub st t s a.0 in
    let (s'', e') = sort_all env stub st ts s' a.1 in (s'', rw e e')

still-Open :
    (t t' : ReqSendTask) (st : States) → Open st t → Open (set_state st t' ReqState.failed) t
still-Open t t' st h = elim (Bool-cases (t.req.handle == t'.req.handle)) [
  | inl b ↦ rw b refl
  | inr b ↦ rw b h
]

All-still :
    (t' : ReqSendTask) (st : States) (ts : List ReqSendTask)
    → All (Open st) ts
    → All (Open (set_state st t' ReqState.failed)) ts
All-still t' st [] a = tt
All-still t' st (t ∷ ts) a = (still-Open t t' st a.0, All-still t' st ts a.1)

fail_returns :
    (env : Env) (ts : List ReqSendTask) (st : States)
    → All (Open st) ts
    → (st' : States) × (fail_all env ts st ≡ ok st')
unfolding fail_all for_each ◌>>=◌
fail_returns env [] st a = (st, refl)
fail_returns env (t ∷ ts) st a =
    let (st', e) = fail_returns env ts (set_state st t ReqState.failed) (All-still t st ts a.1) in
    (st', rw (assert_ok env.asserts _ a.0) e)

reach_if :
    (b : Bool) (t : ReqSendTask) (ts : List ReqSendTask)
    → t.reach_last_token ≡ b
    → All (λ u. u.reach_last_token ≡ true) ts
    → All (λ u. u.reach_last_token ≡ true) (if b then t ∷ ts else ts)
reach_if true t ts h a = (h, a)
reach_if false t ts h a = a

to_finish-reach : (ts : List ReqSendTask) → All (λ u. u.reach_last_token ≡ true) (to_finish ts)
to_finish-reach [] = tt
to_finish-reach (t ∷ ts) = reach_if t.reach_last_token t (to_finish ts) refl (to_finish-reach ts)

settle_returns :
    (env : Env) (ts : List ReqSendTask) (st : States)
    → All (λ u. u.reach_last_token ≡ true) ts
    → (st' : States) × (for_each ts (settle env) st ≡ ok st')
unfolding for_each settle ◌>>=◌
settle_returns env [] st a = (st, refl)
settle_returns env (t ∷ ts) st a =
    let mid : States =
      if is_inprocess (state st t)
      then set_state st t (if t.new_tokens == 0 then ReqState.failed else ReqState.finished)
      else st in
    let (st', e) = settle_returns env ts mid a.1 in
    (st', (rw (assert_ok env.asserts t.reach_last_token a.0) e))

handle_returns :
    (env : Env) (tasks : List ReqSendTask) (st : States) (s : Step)
    → All (Open st) tasks
    → ((e : Error) → s.1 ≡ err e → is_exception e ≡ true)
    → (out : Outcome) × (handle env tasks st s ≡ ok out)
unfolding handle ◌>>=◌
handle_returns env tasks st (c, ok _) a h = (record { context = c; states = st }, refl)
handle_returns env tasks st (c, err x) a h =
    let (st', e) = fail_returns env tasks st a in
    (record { context = with_ch c false; states = st' }, rw (h x refl, e) refl)

All-Open :
    (stub : KvSendStub) (st : States) (ts : List ReqSendTask)
    → All (Addressed stub st) ts
    → All (Open st) ts
All-Open stub st [] a = tt
All-Open stub st (t ∷ ts) a = (a.0.unfinished, All-Open stub st ts a.1)

-- For a batch that is not empty, of tasks for this sender whose requests are not finished,
-- `do_task` returns, whether the `try` block ends, or throws an exception that the handler catches:
-- no `assert` of the two loops and of the handler fails.
pub do_task-returns :
    (env : Env) (stub : KvSendStub) (calls : Calls) (tasks : List ReqSendTask) (c : TaskContext)
    (states : States)
    → 0 < length tasks
    → All (Addressed stub states) tasks
    → ((e : Error)
        → (try_send env stub calls (to_send states tasks) c).1 ≡ err e
        → is_exception e ≡ true)
    → (out : Outcome) × (do_task env stub calls tasks c states ≡ ok out)
unfolding do_task ◌>>=◌
do_task-returns env stub calls tasks c states some_ a h =
    let (sorted, e₁) =
      sort_all env stub states tasks (record { send_req = []; finished_req = [] }) a in
    let (l, r) = sort_loop env stub states tasks _ sorted e₁ in
    let (sent, e₂) = sent_returns (to_send states tasks) (
      handle_returns env tasks states (try_send env stub calls (to_send states tasks) c)
        (All-Open stub states tasks a) h) in
    let (st, e₃) = settle_returns env (to_finish tasks) sent.states (to_finish-reach tasks) in
    (
      record { context = sent.context; states = st },
      rw (assert_ok env.asserts _ (lt→ltb 0 (length tasks) some_), e₁, l, e₂, r, e₃) refl,
    )
  where
    sent_returns :
        (ts : List ReqSendTask)
        → ((out : Outcome) × (handle env tasks states (try_send env stub calls ts c) ≡ ok out))
        → (out : Outcome) × ((if ltb 0 (length ts)
              then handle env tasks states (try_send env stub calls ts c)
              else ok (record { context = c; states = states }))
            ≡ ok out)
    sent_returns ts (o, e) = elim (Bool-cases (ltb 0 (length ts))) [
      | inl b ↦ (o, rw b e)
      | inr b ↦ (record { context = c; states = states }, rw b refl)
    ]
