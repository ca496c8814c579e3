-- ===== src/Stub/States.antt =====
-- How `do_task` (kvtransfer/src/tx_stub.cpp) settles the states of the requests of a batch.
use llumnix_kv.Base.{
  ◌>>◌, ℕ, ◌≡◌, refl, sym, ap, ◌∙◌, subst, ◌⊎◌, inl, inr, Bool, true, false, ◌||◌, List, [], ◌∷◌,
  ◌==◌, if◌then◌else◌, Bool-cases, ok, assert, for_each, >>=-eq-ok, All, ℕ_discrete, arith,
}
use llumnix_kv.Env.{Env}
use llumnix_kv.Types.{ReqState, States, ReqSendTask}
use llumnix_kv.Stub.Task.{set_state, state, is_inprocess, is_failed, fail_all, settle}

-- The states that a round of the last loop leaves.
abbrev pub settle_states : ReqSendTask → States → States
settle_states task st =
    if is_inprocess (state st task)
    then set_state st task (if task.new_tokens == 0 then ReqState.failed else ReqState.finished)
    else st

pub settle_ok :
    (env : Env) (task : ReqSendTask) (st st' : States)
    → settle env task st ≡ ok st'
    → settle_states task st ≡ st'
unfolding settle
settle_ok env task st st' e =
    let (_, _, e') = >>=-eq-ok (assert env.asserts task.reach_last_token) _ e in cc

-- A state that is not `inprocess` stays.
pub settle_stays :
    (task : ReqSendTask) (st : States) (h : ℕ)
    → is_inprocess (st h) ≡ false
    → settle_states task st h ≡ st h
settle_stays task st h d = elim (ℕ_discrete h task.req.handle) [
  | yes e ↦
      let d' : is_inprocess (state st task) ≡ false =
        subst (λ (k : ℕ). is_inprocess (st k) ≡ false) e d in
      rw d' refl
  | no ne ↦
      let off : (h == task.req.handle) ≡ false = ground arith in
      elim (Bool-cases (is_inprocess (state st task))) [
        | inl b ↦ rw (b, off) refl
        | inr b ↦ rw b refl
      ]
]

settled_state : (b : Bool) → is_inprocess (if b then ReqState.failed else ReqState.finished) ≡ false
settled_state true = refl
settled_state false = refl

-- The request of the task is settled.
pub settle_settles :
    (task : ReqSendTask) (st : States)
    → is_inprocess (settle_states task st task.req.handle) ≡ false
settle_settles task st = elim (Bool-cases (is_inprocess (state st task))) [
  | inl b ↦
      let on : (task.req.handle == task.req.handle) ≡ true = ground arith in
      rw (b, on) (settled_state (task.new_tokens == 0))
  | inr b ↦ rw b b
]

-- Whatever it leaves finished was so, or is the request of the task, in process and with new tokens.
pub settle_finishes :
    (task : ReqSendTask) (st : States) (h : ℕ)
    → settle_states task st h ≡ ReqState.finished
    → (st h ≡ ReqState.finished)
      ⊎ ((h ≡ task.req.handle)
          × (is_inprocess (state st task) ≡ true)
          × ((task.new_tokens == 0) ≡ false))
settle_finishes task st h f = elim (Bool-cases (is_inprocess (state st task))) [
  | inr b ↦ inl (let f' : st h ≡ ReqState.finished = rw b at f in f')
  | inl b ↦ elim (ℕ_discrete h task.req.handle) [
    | no ne ↦
        let off : (h == task.req.handle) ≡ false = ground arith in
        inl (let f' : st h ≡ ReqState.finished = rw (b, off) at f in f')
    | yes e ↦ elim (Bool-cases (task.new_tokens == 0)) [
      | inr some_ ↦ inr (e, b, some_)
      | inl none_ ↦
          let on : (h == task.req.handle) ≡ true = ground arith in
          let f' : ReqState.failed ≡ ReqState.finished = rw (b, on, none_) at f in absurd (cc)
    ]
  ]
]

-- A failed request stays failed, and the handler fails every request of the batch.
fail_step :
    (env : Env) (task : ReqSendTask) (st st' : States)
    → (assert env.asserts (is_inprocess (state st task) || is_failed (state st task))
        >> ok (set_state st task ReqState.failed))
      ≡ ok st'
    → set_state st task ReqState.failed ≡ st'
fail_step env task st st' e = let (_, _, e') = >>=-eq-ok (assert env.asserts _) _ e in cc

fail_at :
    (task : ReqSendTask) (st : States) (h : ℕ)
    → (st h ≡ ReqState.failed) ⊎ (h ≡ task.req.handle)
    → set_state st task ReqState.failed h ≡ ReqState.failed
fail_at task st h (inl f) = elim (Bool-cases (h == task.req.handle)) [
  | inl b ↦ rw b refl
  | inr b ↦ rw b f
]
fail_at task st h (inr e) = let on : (h == task.req.handle) ≡ true = ground arith in rw on refl

fail_finishes :
    (task : ReqSendTask) (st : States) (h : ℕ)
    → set_state st task ReqState.failed h ≡ ReqState.finished
    → st h ≡ ReqState.finished
fail_finishes task st h f = elim (Bool-cases (h == task.req.handle)) [
  | inl b ↦ let f' : ReqState.failed ≡ ReqState.finished = rw b at f in absurd (cc)
  | inr b ↦ let f' : st h ≡ ReqState.finished = rw b at f in f'
]

-- What the handler keeps and does.
pub record FailedAll (tasks : List ReqSendTask) (st st' : States) : Type 0 where
  pub failed_stays : (h : ℕ) → st h ≡ ReqState.failed → st' h ≡ ReqState.failed
  pub no_finish : (h : ℕ) → st' h ≡ ReqState.finished → st h ≡ ReqState.finished
  pub batch_failed : All (λ t. state st' t ≡ ReqState.failed) tasks

pub fail_all_lem :
    (env : Env) (tasks : List ReqSendTask) (st st' : States)
    → fail_all env tasks st ≡ ok st'
    → FailedAll tasks st st'
unfolding fail_all for_each
fail_all_lem env [] st st' e =
    let e' : st ≡ st' = cc in
    record {
      failed_stays = λ h f. subst (λ (s : States). s h ≡ ReqState.failed) e' f;
      no_finish = λ h f. ap (λ (s : States). s h) e' ∙ f;
      batch_failed = tt;
    }
fail_all_lem env (t ∷ ts) st st' e =
    let (mid, e₁, e₂) = >>=-eq-ok _ (for_each ts _) e in
    let rest = fail_all_lem env ts mid st' e₂ in
    let step = fail_step env t st mid e₁ in
    let at_mid : (h : ℕ) → (st h ≡ ReqState.failed) ⊎ (h ≡ t.req.handle) → mid h ≡ ReqState.failed =
      λ h o. subst (λ (s : States). s h ≡ ReqState.failed) step (fail_at t st h o) in
    record {
      failed_stays = λ h f. rest.failed_stays h (at_mid h (inl f));
      no_finish = λ h f.
          fail_finishes t st h
            (subst (λ (s : States). s h ≡ ReqState.finished) (sym step) (rest.no_finish h f));
      batch_failed =
          (rest.failed_stays t.req.handle (at_mid t.req.handle (inr refl)), rest.batch_failed);
    }
