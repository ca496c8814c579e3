-- ===== src/Stub/Settled.antt =====
-- What `do_task` (kvtransfer/src/tx_stub.cpp) leaves the requests of a batch with.
use llumnix_kv.Base.{
  ℕ, ◌≡◌, refl, sym, ap, ◌∙◌, subst, ◌⊎◌, inl, inr, Bool, true, false, List, [], ◌∷◌, length, ltb,
  ◌==◌, if◌then◌else◌, Bool-cases, ok, err, assert, for_each, >>=-eq-ok, All, arith,
}
use llumnix_kv.Env.{Env}
use llumnix_kv.Types.{ReqState, States, ReqSendTask}
use llumnix_kv.Stub.Context.{TaskContext, Step, with_ch}
use llumnix_kv.Stub.Task.{
  KvSendStub, Calls, state, is_inprocess, is_failed, sort_task, try_send, is_exception, fail_all,
  Outcome, handle, settle, do_task,
}
use llumnix_kv.Stub.States.{
  settle_states, settle_ok, settle_stays, settle_settles, settle_finishes, FailedAll, fail_all_lem,
}
use llumnix_kv.Stub.Sorted.{skipped, to_send, to_finish, sort_loop}

-- The loop over `finished_req`: it settles its requests, and changes no state but one in process.
settle_loop :
    (env : Env) (ts : List ReqSendTask) (st st' : States)
    → for_each ts (settle env) st ≡ ok st'
    → ((h : ℕ) → is_inprocess (st h) ≡ false → st' h ≡ st h)
      × All (λ t. is_inprocess (state st' t) ≡ false) ts
unfolding for_each
settle_loop env [] st st' e = let e' : st' ≡ st = cc in (λ h d. ap (λ (s : States). s h) e', tt)
settle_loop env (t ∷ ts) st st' e =
    let (mid, e₁, e₂) = >>=-eq-ok _ (for_each ts _) e in
    let (keep, rest) = settle_loop env ts mid st' e₂ in
    let step = settle_ok env t st mid e₁ in
    let mid_at : (h : ℕ) → is_inprocess (st h) ≡ false → mid h ≡ st h =
      λ h d. subst (λ (s : States). s h ≡ st h) step (settle_stays t st h d) in
    let done : is_inprocess (state mid t) ≡ false =
      subst (λ (s : States). is_inprocess (state s t) ≡ false) step (settle_settles t st) in
    (
      λ h d. keep h (ap is_inprocess (mid_at h d) ∙ d) ∙ mid_at h d,
      (ap is_inprocess (keep t.req.handle done) ∙ done, rest),
    )

-- A task that the loop cannot finish.
abbrev Hopeless : States → ReqSendTask → Type 0
Hopeless st t = ((t.new_tokens == 0) ≡ true) ⊎ (state st t ≡ ReqState.failed)

Hopeless-step :
    (st st' : States) (ts : List ReqSendTask)
    → ((h : ℕ) → st h ≡ ReqState.failed → st' h ≡ ReqState.failed)
    → All (Hopeless st) ts
    → All (Hopeless st') ts
Hopeless-step st st' [] keep a = tt
Hopeless-step st st' (t ∷ ts) keep a = (
  elim a.0 [ inl e ↦ inl e | inr f ↦ inr (keep t.req.handle f) ],
  Hopeless-step st st' ts keep a.1,
)

Hopeless-settle :
    (t : ReqSendTask) (st : States) (h : ℕ)
    → Hopeless st t
    → settle_states t st h ≡ ReqState.finished
    → st h ≡ ReqState.finished
Hopeless-settle t st h w f = elim (settle_finishes t st h f) [
  | inl g ↦ g
  | inr (e, b, some_) ↦ elim w [
    | inl z ↦ absurd (cc)
    | inr g ↦ let b' : is_inprocess (state st t) ≡ false = ap is_inprocess g in absurd (cc)
  ]
]

-- It leaves a request finished only if that was so.
Hopeless-loop :
    (env : Env) (ts : List ReqSendTask) (st st' : States) (h : ℕ)
    → for_each ts (settle env) st ≡ ok st'
    → All (Hopeless st) ts
    → st' h ≡ ReqState.finished
    → st h ≡ ReqState.finished
unfolding for_each
Hopeless-loop env [] st st' h e a f = let e' : st ≡ st' = cc in ap (λ (s : States). s h) e' ∙ f
Hopeless-loop env (t ∷ ts) st st' h e a f =
    let (mid, e₁, e₂) = >>=-eq-ok _ (for_each ts _) e in
    let step = settle_ok env t st mid e₁ in
    let keep : (k : ℕ) → st k ≡ ReqState.failed → mid k ≡ ReqState.failed = λ k g.
      subst (λ (s : States). s k ≡ ReqState.failed) step
        (settle_stays t st k (ap is_inprocess g) ∙ g) in
    let g = Hopeless-loop env ts mid st' h e₂ (Hopeless-step st mid ts keep a.1) f in
    Hopeless-settle t st h a.0 (subst (λ (s : States). s h ≡ ReqState.finished) (sym step) g)

pick_all {ℓ} :
    (P : ReqSendTask → Type ℓ) (b : Bool) (t : ReqSendTask) (ts : List ReqSendTask)
    → P t
    → All P ts
    → All P (if b then t ∷ ts else ts)
pick_all P true t ts p a = (p, a)
pick_all P false t ts p a = a

All-to_finish {ℓ} :
    (P : ReqSendTask → Type ℓ) (ts : List ReqSendTask) → All P ts → All P (to_finish ts)
All-to_finish P [] a = tt
All-to_finish P (t ∷ ts) a =
    pick_all P t.reach_last_token t (to_finish ts) a.0 (All-to_finish P ts a.1)

none_to_send :
    (states : States) (ts : List ReqSendTask) → to_send states ts ≡ [] → All (Hopeless states) ts
none_to_send states [] e = tt
none_to_send states (t ∷ ts) e = elim (Bool-cases (skipped states t)) [
  | inl b ↦ (
    elim (Bool-cases (t.new_tokens == 0)) [
      | inl z ↦ inl z
      | inr z ↦ inr (
          failed_of (state states t) (let b' : is_failed (state states t) ≡ true = rw z at b in b'))
    ],
    none_to_send states ts (let e' : to_send states ts ≡ [] = rw b at e in e'),
  )
  | inr b ↦ let e' : t ∷ to_send states ts ≡ [] = rw b at e in absurd (cc)
]
  where
    failed_of : (r : ReqState) → is_failed r ≡ true → r ≡ ReqState.failed
    failed_of ReqState.failed h = refl
    failed_of ReqState.inprocess h = absurd (cc)
    failed_of ReqState.finished h = absurd (cc)

failed-Hopeless :
    (st : States) (ts : List ReqSendTask)
    → All (λ t. state st t ≡ ReqState.failed) ts
    → All (Hopeless st) ts
failed-Hopeless st [] a = tt
failed-Hopeless st (t ∷ ts) a = (inr a.0, failed-Hopeless st ts a.1)

-- The `try` with its handler: either the transfer succeeded, or every request of the batch failed.
handle_cases :
    (env : Env) (tasks : List ReqSendTask) (st : States) (s : Step) (out : Outcome)
    → handle env tasks st s ≡ ok out
    → ((s.1 ≡ ok tt) × (out.states ≡ st)) ⊎ FailedAll tasks st out.states
unfolding handle
handle_cases env tasks st (c, ok tt) out e =
    let e' : record { context = c; states = st } ≡ out = cc in
    inl (refl, ap (λ (o : Outcome). o.states) (sym e'))
handle_cases env tasks st (c, err x) out e = elim (Bool-cases (is_exception x)) [
  | inr b ↦ let e' : err x ≡ ok out = rw b at e in absurd (cc)
  | inl b ↦
      let (st', e₁, e₂) =
        >>=-eq-ok (fail_all env tasks st)
          (λ st. ok (record { context = with_ch c false; states = st })) (rw b at e) in
      let e' : record { context = with_ch c false; states = st' } ≡ out = cc in
      let s' : st' ≡ out.states = ap (λ (o : Outcome). o.states) e' in
      inr (subst (FailedAll tasks st) s' (fail_all_lem env tasks st st' e₁))
]

no_elements : (ts : List ReqSendTask) → ltb 0 (length ts) ≡ false → ts ≡ []
no_elements [] h = refl
no_elements (t ∷ ts) h = absurd (ground arith)

module _ (env : Env) (stub : KvSendStub) (calls : Calls) (tasks : List ReqSendTask)
    (c : TaskContext) (states : States) (out : Outcome) where
  -- The parts of a run.
  pub parts :
      do_task env stub calls tasks c states ≡ ok out
      → (sent : Outcome) × ((if ltb 0 (length (to_send states tasks))
            then handle env tasks states (try_send env stub calls (to_send states tasks) c)
            else ok (record { context = c; states = states }))
          ≡ ok sent)
        × (for_each (to_finish tasks) (settle env) sent.states ≡ ok out.states)
  unfolding do_task
  parts e =
      let (_, _, e₁) = >>=-eq-ok (assert env.asserts _) _ e in
      let (sorted, e₂, e₃) = >>=-eq-ok (for_each tasks (sort_task env stub states) _) _ e₁ in
      let (a, b) = sort_loop env stub states tasks _ sorted e₂ in
      let (sent, e₄, e₅) = >>=-eq-ok _ _ e₃ in
      let (st, e₆, e₇) = >>=-eq-ok (for_each sorted.finished_req (settle env) sent.states) _ e₅ in
      let e₈ : st ≡ out.states =
        ap (λ (o : Outcome). o.states)
          (let q : record { context = sent.context; states = st } ≡ out = cc in q) in
      (sent, rw a at e₄, rw (b, e₈) at e₆)

  pub sent_cases :
      (sent : Outcome)
      → (if ltb 0 (length (to_send states tasks))
          then handle env tasks states (try_send env stub calls (to_send states tasks) c)
          else ok (record { context = c; states = states }))
        ≡ ok sent
      → (((try_send env stub calls (to_send states tasks) c).1 ≡ ok tt) × (sent.states ≡ states))
        ⊎ (((h : ℕ) → states h ≡ ReqState.failed → sent.states h ≡ ReqState.failed)
            × ((h : ℕ) → sent.states h ≡ ReqState.finished → states h ≡ ReqState.finished)
            × All (Hopeless sent.states) tasks)
  sent_cases sent e = elim (Bool-cases (ltb 0 (length (to_send states tasks)))) [
    | inl b ↦
        elim (handle_cases env tasks states (try_send env stub calls (to_send states tasks) c) sent
          (rw b at e)) [
            | inl h ↦ inl h
            | inr f ↦
                inr (f.failed_stays, f.no_finish, failed-Hopeless sent.states tasks f.batch_failed)
          ]
    | inr b ↦
        let e' : ok (record { context = c; states = states }) ≡ ok sent = rw b at e in
        let s' : states ≡ sent.states =
          ap (λ (o : Outcome). o.states)
            (let q : record { context = c; states = states } ≡ sent = cc in q) in
        inr (
          (λ h f. subst (λ (s : States). s h ≡ ReqState.failed) s' f),
          (λ h f. ap (λ (s : States). s h) s' ∙ f),
          subst (λ (s : States). All (Hopeless s) tasks) s'
              (none_to_send states tasks (no_elements (to_send states tasks) b)),
        )
  ]

  -- A request that has failed stays failed through a run of `do_task` that returns.
  pub do_task-failed :
      do_task env stub calls tasks c states ≡ ok out
      → (h : ℕ) → states h ≡ ReqState.failed
      → out.states h ≡ ReqState.failed
  do_task-failed e h f =
      let (sent, e₁, e₂) = parts e in
      let (keep, all) = settle_loop env (to_finish tasks) sent.states out.states e₂ in
      let g : sent.states h ≡ ReqState.failed = elim (sent_cases sent e₁) [
        | inl (_, s) ↦ ap (λ (s : States). s h) s ∙ f
        | inr (k, _, _) ↦ k h f
      ] in
      keep h (ap is_inprocess g) ∙ g

  -- After a run of `do_task` that returns, the request of every task of the batch that carries a
  -- last token is finished or failed.
  pub do_task-settled :
      do_task env stub calls tasks c states ≡ ok out
      → All (λ t. is_inprocess (state out.states t) ≡ false) (to_finish tasks)
  do_task-settled e =
      let (sent, e₁, e₂) = parts e in
      (settle_loop env (to_finish tasks) sent.states out.states e₂).1

  -- A request is finished after a run of `do_task` that returns only if it was so before, or the
  -- `try` block, which creates the channel, parses every task to send and sends and flushes the
  -- data, ended without a throw.
  pub do_task-finished :
      do_task env stub calls tasks c states ≡ ok out
      → (h : ℕ) → out.states h ≡ ReqState.finished
      → (states h ≡ ReqState.finished)
        ⊎ ((try_send env stub calls (to_send states tasks) c).1 ≡ ok tt)
  do_task-finished e h f =
      let (sent, e₁, e₂) = parts e in
      elim (sent_cases sent e₁) [
        | inl (r, _) ↦ inr r
        | inr (_, k, a) ↦ inl (
            k h (
              Hopeless-loop env (to_finish tasks) sent.states out.states h e₂
                (All-to_finish (Hopeless sent.states) tasks a) f))
      ]
