-- ===== src/Stub/Finishes.antt =====
-- Which tasks of a batch finish a request in `do_task` (kvtransfer/src/tx_stub.cpp).
use mathlib.Core.List.{Mem, mem-cons_self, mem-cons_of_mem}
use llumnix_kv.Base.{
  ℕ, ◌≡◌, refl, sym, ap, ◌∙◌, subst, ◌⊎◌, inl, inr, true, false, List, [], ◌∷◌, ◌==◌, Bool-cases,
  ok, for_each, >>=-eq-ok,
}
use llumnix_kv.Env.{Env}
use llumnix_kv.Types.{ReqState, States, ReqSendTask}
use llumnix_kv.Stub.Context.{TaskContext}
use llumnix_kv.Stub.Task.{KvSendStub, Calls, state, is_failed, Outcome, settle, do_task}
use llumnix_kv.Stub.States.{settle_states, settle_ok, settle_finishes}
use llumnix_kv.Stub.Sorted.{skipped, to_finish}
use llumnix_kv.Stub.Settled.{parts, sent_cases, do_task-failed}

-- One of the tasks that is for the request and has new tokens.
Finisher : List ReqSendTask → ℕ → Type 0
Finisher ts h = (t : ReqSendTask) × Mem t ts × (h ≡ t.req.handle) × ((t.new_tokens == 0) ≡ false)

settle_loop-Finisher :
    (env : Env) (ts : List ReqSendTask) (st st' : States) (h : ℕ)
    → for_each ts (settle env) st ≡ ok st'
    → st' h ≡ ReqState.finished
    → (st h ≡ ReqState.finished) ⊎ Finisher ts h
unfolding for_each Finisher
settle_loop-Finisher env [] st st' h e f =
    let e' : st ≡ st' = cc in inl (ap (λ (s : States). s h) e' ∙ f)
settle_loop-Finisher env (t ∷ ts) st st' h e f =
    let (mid, e₁, e₂) = >>=-eq-ok _ (for_each ts _) e in
    elim (settle_loop-Finisher env ts mid st' h e₂ f) [
      | inr (u, m, at_, some_) ↦ inr (u, mem-cons_of_mem t m, at_, some_)
      | inl g ↦
          let g' : settle_states t st h ≡ ReqState.finished =
            subst (λ (s : States). s h ≡ ReqState.finished) (sym (settle_ok env t st mid e₁)) g in
          elim (settle_finishes t st h g') [
            | inl k ↦ inl k
            | inr (at_, _, some_) ↦ inr (t, mem-cons_self, at_, some_)
          ]
    ]

module _ (env : Env) (stub : KvSendStub) (calls : Calls) (tasks : List ReqSendTask)
    (c : TaskContext) (states : States) (out : Outcome) where
  -- A request is finished after a run of `do_task` that returns only if it was so before, or the
  -- batch has a task of it that carries its last token and is not `skipped`: it has new tokens and
  -- its request had not failed before, so that it is among the tasks to send.
  pub do_task-finisher :
      do_task env stub calls tasks c states ≡ ok out
      → (h : ℕ) → out.states h ≡ ReqState.finished
      → (states h ≡ ReqState.finished)
        ⊎ ((t : ReqSendTask) × Mem t (to_finish tasks)
            × (h ≡ t.req.handle)
            × (skipped states t ≡ false))
  unfolding Finisher
  do_task-finisher e h f =
      let (sent, e₁, e₂) = parts env stub calls tasks c states out e in
      elim (settle_loop-Finisher env (to_finish tasks) sent.states out.states h e₂ f) [
        | inl g ↦ inl (elim (sent_cases env stub calls tasks c states out sent e₁) [
          | inl (_, s) ↦ sym (ap (λ (s : States). s h) s) ∙ g
          | inr (_, k, _) ↦ k h g
        ])
        | inr (t, m, at_, some_) ↦ inr (
          t,
          m,
          at_,
          rw some_ (elim (Bool-cases (is_failed (state states t))) [
            | inr b ↦ b
            | inl b ↦
                let g : out.states h ≡ ReqState.failed =
                  do_task-failed env stub calls tasks c states out e h
                    (ap states at_ ∙ failed_of (state states t) b) in
                let clash : ReqState.failed ≡ ReqState.finished = sym g ∙ f in absurd (cc)
          ]),
        )
      ]
    where
      failed_of : (r : ReqState) → is_failed r ≡ true → r ≡ ReqState.failed
      failed_of ReqState.failed h = refl
      failed_of ReqState.inprocess h = absurd (cc)
      failed_of ReqState.finished h = absurd (cc)
