-- ===== src/Client/Substep.antt =====
-- `start_send_substep` and `start_send` (kvtransfer/src/client.cpp): each substep is sent once, with a step
-- of its number.
use llumnix_kv.Base.{
  ℕ, ◌+◌, ◌<◌, ◌≡◌, ◌⊎◌, refl, sym, ap, ◌∙◌, true, false, ◌&&◌, List, [], ◌∷◌, ◌++◌, append_assoc,
  append-nil, push_back, none, some, inl, inr, ltb, lt→ltb, ltb→lt, ◌==◌, ==_iff, if◌then◌else◌,
  Bool-cases, Option-cases, ok, ◌>>=◌, assert_ok, for_each, subst, arith,
}
use llumnix_kv.Env.{Env}
use llumnix_kv.Client.Tasks.{is_empty}
use llumnix_kv.Client.State.{
  StepRef, StepMetas, Submission, KvTransferClient, made_step, submit, no_tasks,
}
use llumnix_kv.Client.StartSend.{
  SubstepAction, substep_action, or_freeze, take_action, start_send_substep, some_metas, is_none,
  submit_buf, enter_step, drain_one, start_step, start_send,
}
use llumnix_kv.Client.Coord.{
  IsFilled, Queue, IsCoordinated, IsDelivery, Delivered, attach_delivers, freeze_delivers,
  follows-Queue,
}

-- A call that keeps the substep for its step.
pub record Kept (sm : StepMetas) (c c' : KvTransferClient) : Type 0 where
  pub early : c.coord_step_id < sm.stepid
  pub pending : c'.pending_step_metas ≡ push_back c.pending_step_metas sm
  pub submitted : c'.submitted ≡ c.submitted

act_delivers :
    (env : Env) (k : ℕ) (sm : StepMetas) (c : KvTransferClient)
    → IsCoordinated k c
    → IsFilled sm
    → (c.coord_step_id < sm.stepid → Queue k 0 (push_back c.pending_step_metas sm))
    → (c' : KvTransferClient) × (take_action env sm c (substep_action sm.stepid c) ≡ ok c')
      × (Delivered sm c c' ⊎ Kept sm c c')
unfolding take_action ◌>>=◌
act_delivers env k sm c v f q = elim (Bool-cases (ltb sm.stepid c.coord_step_id)) [
  | inl late ↦ let (c', e, d) = freeze_delivers env sm c f in (c', rw late e, inl d)
  | inr b ↦ elim (Bool-cases (ltb c.coord_step_id sm.stepid)) [
    | inl early ↦
        let h = ltb→lt c.coord_step_id sm.stepid early in
        (
          record c { pending_step_metas = push_back c.pending_step_metas sm },
          rw (b, early, follows-Queue k 0 c.pending_step_metas sm (q h)) refl,
          inr (record { early = h; pending = refl; submitted = refl }),
        )
    | inr b' ↦
        let same : sm.stepid ≡ c.coord_step_id = ground arith in
        elim (Option-cases c.last_step_guard) [
          | inl n ↦
              let (c', e, d) = freeze_delivers env sm c f in
              let act : substep_action sm.stepid c ≡ SubstepAction.new_freeze =
                rw (b, b') (ap or_freeze n) in
              (c', ap (take_action env sm c) act ∙ e, inl d)
          | inr (s, e) ↦
              let (c', run, d) = attach_delivers env s sm c (v.current s e ∙ sym same) f in
              let act : substep_action sm.stepid c ≡ SubstepAction.attach_current s =
                rw (b, b') (ap or_freeze e) in
              (c', ap (take_action env sm c) act ∙ run, inl d)
        ]
  ]
]

-- Where the client is coordinated and the substep has metas, each with new tokens, and, if its step
-- has not started, comes after the pending ones of that step, `start_send_substep` returns; it
-- either submits the tasks of the substep once, with a step of its number, or keeps the substep at
-- the end of the pending ones, which it does only if the step has not started.
pub start_send_substep-once :
    (env : Env) (k : ℕ) (sm : StepMetas) (c : KvTransferClient)
    → IsCoordinated k c
    → IsFilled sm
    → (c.coord_step_id < sm.stepid → Queue k 0 (push_back c.pending_step_metas sm))
    → (c' : KvTransferClient) × (start_send_substep env sm c ≡ ok c')
      × (Delivered sm c c' ⊎ Kept sm c c')
unfolding start_send_substep
start_send_substep-once env k sm c v f q =
    let (c', e, r) = act_delivers env k sm c v f q in
    let some_ : some_metas sm.metas ≡ true = ap some_metas f.some_meta in (c', rw some_ e, r)

-- One delivery for each substep.
abbrev pub Deliveries : List StepMetas → List Submission → Type 0
Deliveries [] [] = Unit {0}
Deliveries (m ∷ ms) (s ∷ ss) = IsDelivery m s × Deliveries ms ss
Deliveries _ _ = ⊥

record Drained (env : Env) (step : StepRef) (ms : List StepMetas) (n : ℕ) (c : KvTransferClient)
    : Type 0 where
  last : ℕ
  client : KvTransferClient
  runs : for_each ms (drain_one env step) (n, c) ≡ ok (last, client)
  subs : List Submission
  deliveries : Deliveries ms subs
  submitted : client.submitted ≡ c.submitted ++ subs
  pending : client.pending_step_metas ≡ c.pending_step_metas
  guard : client.last_step_guard ≡ c.last_step_guard
  coord : client.coord_step_id ≡ c.coord_step_id

drain :
    (env : Env) (step : StepRef) (ms : List StepMetas) (n : ℕ) (c : KvTransferClient)
    → Queue step.step_idx n ms
    → Drained env step ms n c
unfolding for_each drain_one ◌>>=◌
drain env step [] n c q = record {
  last = n;
  client = c;
  runs = refl;
  subs = [];
  deliveries = tt;
  submitted = sym (append-nil c.submitted);
  pending = refl;
  guard = refl;
  coord = refl;
}
drain env step (m ∷ ms) n c q =
    let (c', e, d) = attach_delivers env step m c (sym q.0) q.2 in
    let r = drain env step ms m.substepid c' q.3 in
    record {
      last = r.last;
      client = r.client;
      runs =
          rw
            (
              assert_ok env.asserts _ ((==_iff m.stepid step.step_idx).1 q.0),
              assert_ok env.asserts _ (lt→ltb n m.substepid q.1),
              e,
            )
            r.runs;
      subs = d.submission ∷ r.subs;
      deliveries = (d.delivery, r.deliveries);
      submitted =
          r.submitted
          ∙ ap (λ (l : List Submission). l ++ r.subs) d.submitted
          ∙ append_assoc c.submitted (d.submission ∷ []) r.subs;
      pending = r.pending ∙ d.pending;
      guard = r.guard ∙ d.guard;
      coord = r.coord ∙ d.coord;
    }

-- The submission of the buffer, if there is something in it.
abbrev pub buffered : KvTransferClient → ℕ → List Submission
buffered c stepid =
    if is_empty c.targets_tasks_buf
    then []
    else record { step = made_step c stepid; ready = false; tasks = c.targets_tasks_buf } ∷ []

-- A step that has started.
pub record Started (stepid : ℕ) (c c' : KvTransferClient) : Type 0 where
  pub subs : List Submission
  pub deliveries : Deliveries c.pending_step_metas subs
  pub submitted : c'.submitted ≡ (c.submitted ++ buffered c stepid) ++ subs
  pub pending : c'.pending_step_metas ≡ []
  pub guard : c'.last_step_guard ≡ some (made_step c stepid)
  pub coordinated : IsCoordinated stepid c'

-- What the submission of the buffer leaves.
record Buffered (env : Env) (stepid : ℕ) (c : KvTransferClient) : Type 0 where
  client : KvTransferClient
  runs : submit_buf env (made_step c stepid) c ≡ ok client
  submitted : client.submitted ≡ c.submitted ++ buffered c stepid
  pending : client.pending_step_metas ≡ c.pending_step_metas
  guard : client.last_step_guard ≡ c.last_step_guard

submit_buf_total :
    (env : Env) (stepid : ℕ) (c : KvTransferClient)
    → (is_empty c.targets_tasks_buf ≡ false → c.targets_tasks_buf.substepid ≡ 0)
    → Buffered env stepid c
unfolding submit_buf ◌>>=◌
submit_buf_total env stepid c z = elim (Bool-cases (is_empty c.targets_tasks_buf)) [
  | inl b ↦ record {
    client = record c { next_step = c.next_step + 1; targets_tasks_buf = no_tasks };
    runs = rw b refl;
    submitted = rw b (sym (append-nil c.submitted));
    pending = refl;
    guard = refl;
  }
  | inr b ↦
      let e : (c.targets_tasks_buf.substepid == 0) ≡ true =
        (==_iff c.targets_tasks_buf.substepid 0).1 (z b) in
      record {
        client =
            submit (made_step c stepid) false c.targets_tasks_buf
              (record c { next_step = c.next_step + 1; targets_tasks_buf = no_tasks });
        runs = rw (b, assert_ok env.asserts _ e) refl;
        submitted = rw b refl;
        pending = refl;
        guard = refl;
      }
]

start_step-Started :
    (env : Env) (stepid : ℕ) (c : KvTransferClient)
    → Queue stepid 0 c.pending_step_metas
    → c.last_step_guard ≡ none
    → (is_empty c.targets_tasks_buf ≡ false → c.targets_tasks_buf.substepid ≡ 0)
    → (c' : KvTransferClient) × (start_step env stepid c ≡ ok c') × Started stepid c c'
unfolding start_step enter_step ◌>>=◌
start_step-Started env stepid c q idle z =
    let b = submit_buf_total env stepid c z in
    let step = made_step c stepid in
    let free : is_none b.client.last_step_guard ≡ true = ap is_none (b.guard ∙ idle) in
    let r =
      drain env step b.client.pending_step_metas 0
        (record b.client {
          coord_step_id = stepid;
          last_step_guard = some step;
          pending_step_metas = [];
        })
        (subst (Queue stepid 0) (sym b.pending) q) in
    (
      r.client,
      rw (b.runs, assert_ok env.asserts (is_none b.client.last_step_guard) free, r.runs) refl,
      record {
        subs = r.subs;
        deliveries = subst (λ (l : List StepMetas). Deliveries l r.subs) b.pending r.deliveries;
        submitted = r.submitted ∙ ap (λ (l : List Submission). l ++ r.subs) b.submitted;
        pending = r.pending;
        guard = r.guard;
        coordinated = record {
          current = λ s e.
              let e' : some step ≡ some s = sym r.guard ∙ e in
              let same : step ≡ s = cc in ap (λ (x : StepRef). x.step_idx) (sym same) ∙ sym r.coord;
          queue = subst (Queue stepid 0) (sym r.pending) tt;
          ahead = inl r.pending;
        };
      },
    )

-- Where the pending substeps are of this step and in order, no step is current, a buffer that is
-- not empty is of substep 0, and the step is not skipped, `start_send` returns the step's number;
-- it submits the buffer, if it is not empty, then each pending substep once, in order, with the
-- step's number, leaves none pending, makes the new step the current one, and leaves the client
-- coordinated.
pub start_send-Started :
    (env : Env) (stepid sched_tokens : ℕ) (c : KvTransferClient)
    → Queue stepid 0 c.pending_step_metas
    → c.last_step_guard ≡ none
    → (is_empty c.targets_tasks_buf ≡ false → c.targets_tasks_buf.substepid ≡ 0)
    → (sched_tokens == 0 && is_empty c.targets_tasks_buf) ≡ false
    → (c' : KvTransferClient) × (start_send env stepid sched_tokens c ≡ ok (c', stepid))
      × Started stepid c c'
unfolding start_send ◌>>=◌
start_send-Started env stepid sched_tokens c q idle z some_ =
    let (c', e, s) = start_step-Started env stepid c q idle z in (c', rw (some_, e) refl, s)
