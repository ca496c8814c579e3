-- ===== src/Client/Coord.antt =====
-- How the calls of the client (kvtransfer/src/client.cpp) keep substeps and steps together.
use llumnix_kv.Base.{
  ℕ, ◌+◌, ◌<◌, ◌≡◌, ◌⊎◌, refl, sym, ◌∙◌, true, false, List, [], ◌∷◌, ◌++◌, push_back, map, some,
  lt→ltb, ◌==◌, ==_iff, All, ok, ◌>>=◌, assert_ok, subst,
}
use llumnix_kv.Env.{Env}
use llumnix_kv.Types.{Bytes}
use llumnix_kv.Targets.Nodes.{same_key_refl}
use llumnix_kv.Client.Tasks.{ReqMeta, Workers, StepTasks, is_empty}
use llumnix_kv.Client.Routing.{tasks_for}
use llumnix_kv.Client.Grouped.{meta_of, metas_for, Grouped, create_step_tasks-Grouped}
use llumnix_kv.Client.State.{
  StepRef, StepMetas, Submission, KvTransferClient, made_step, submit, start_req_send,
}
use llumnix_kv.Client.StartSend.{follows, attach}

-- A substep that has something to send.
pub record IsFilled (sm : StepMetas) : Type 0 where
  pub first : ReqMeta
  pub rest : List ReqMeta
  pub some_meta : sm.metas ≡ first ∷ rest
  pub some_tokens : All (λ m. 0 < m.new_tokens) sm.metas

-- Substeps of step `k`, in order, each after `n`.
abbrev pub Queue : ℕ → ℕ → List StepMetas → Type 0
Queue k n [] = Unit {0}
Queue k n (m ∷ ms) = (m.stepid ≡ k) × (n < m.substepid) × IsFilled m × Queue k m.substepid ms

-- The state between two calls. The pending substeps are of step `k`, which has not started.
pub record IsCoordinated (k : ℕ) (c : KvTransferClient) : Type 0 where
  pub current : (s : StepRef) → c.last_step_guard ≡ some s → s.step_idx ≡ c.coord_step_id
  pub queue : Queue k 0 c.pending_step_metas
  pub ahead : (c.pending_step_metas ≡ []) ⊎ (c.coord_step_id < k)

-- A submission of a substep: its metas, with a step of its number.
pub record IsDelivery (sm : StepMetas) (s : Submission) : Type 0 where
  pub of_step : s.step.step_idx ≡ sm.stepid
  pub grouped : Grouped sm.stepid sm.substepid sm.metas s.tasks

Grouped-not-empty :
    (i j : ℕ) (m : ReqMeta) (ms : List ReqMeta) (st : StepTasks) (ts : List (Bytes × Workers))
    → st.tasks ≡ ts
    → Grouped i j (m ∷ ms) st
    → is_empty st ≡ false
Grouped-not-empty i j m ms st [] e g =
    let here : map meta_of (tasks_for m.dst_inst m.dst_worker st.tasks)
        ≡ m ∷ metas_for m.dst_inst m.dst_worker ms =
      g.in_order m.dst_inst m.dst_worker ∙ rw (same_key_refl m.dst_inst m.dst_worker) refl in
    let none_ : [] ≡ m ∷ metas_for m.dst_inst m.dst_worker ms = rw e at here in absurd (cc)
Grouped-not-empty i j m ms st (t ∷ ts) e g = rw e refl

filled :
    (sm : StepMetas) (st : StepTasks)
    → IsFilled sm
    → Grouped sm.stepid sm.substepid sm.metas st
    → is_empty st ≡ false
filled sm st f g =
    Grouped-not-empty sm.stepid sm.substepid f.first f.rest st st.tasks refl
      (subst (λ ms. Grouped sm.stepid sm.substepid ms st) f.some_meta g)

-- A call that submits one delivery, and changes nothing else but the requests and the next step.
pub record Delivered (sm : StepMetas) (c c' : KvTransferClient) : Type 0 where
  pub submission : Submission
  pub delivery : IsDelivery sm submission
  pub submitted : c'.submitted ≡ push_back c.submitted submission
  pub pending : c'.pending_step_metas ≡ c.pending_step_metas
  pub guard : c'.last_step_guard ≡ c.last_step_guard
  pub coord : c'.coord_step_id ≡ c.coord_step_id

pub attach_delivers :
    (env : Env) (step : StepRef) (sm : StepMetas) (c : KvTransferClient)
    → step.step_idx ≡ sm.stepid
    → IsFilled sm
    → (c' : KvTransferClient) × (attach env step sm c ≡ ok c') × Delivered sm c c'
unfolding attach ◌>>=◌
attach_delivers env step sm c same f =
    let (st, rs, e, g) =
      create_step_tasks-Grouped env sm.stepid sm.substepid sm.metas c.requests f.some_tokens in
    (
      submit step false st (record c { requests = rs }),
      rw (e, filled sm st f g, assert_ok env.asserts true refl) refl,
      record {
        submission = record { step = step; ready = false; tasks = st };
        delivery = record { of_step = same; grouped = g };
        submitted = refl;
        pending = refl;
        guard = refl;
        coord = refl;
      },
    )

pub freeze_delivers :
    (env : Env) (sm : StepMetas) (c : KvTransferClient)
    → IsFilled sm
    → (c' : KvTransferClient) × (start_req_send env sm.metas sm.stepid sm.substepid c ≡ ok c')
      × Delivered sm c c'
unfolding start_req_send ◌>>=◌
freeze_delivers env sm c f =
    let (st, rs, e, g) =
      create_step_tasks-Grouped env sm.stepid sm.substepid sm.metas c.requests f.some_tokens in
    let step = made_step c sm.stepid in
    (
      submit step true st (record c { requests = rs; next_step = c.next_step + 1 }),
      rw (e, filled sm st f g) refl,
      record {
        submission = record { step = step; ready = true; tasks = st };
        delivery = record { of_step = refl; grouped = g };
        submitted = refl;
        pending = refl;
        guard = refl;
        coord = refl;
      },
    )

pub follows-Queue :
    (k n : ℕ) (ms : List StepMetas) (sm : StepMetas)
    → Queue k n (ms ++ sm ∷ [])
    → follows sm.stepid sm.substepid ms ≡ ok tt
unfolding follows ◌>>=◌
follows-Queue k n [] sm q = refl
follows-Queue k n (m ∷ []) sm q =
    let e : (m.stepid == sm.stepid) ≡ true = (==_iff m.stepid sm.stepid).1 (q.0 ∙ sym q.3.0) in
    rw (e, lt→ltb m.substepid sm.substepid q.3.1) refl
follows-Queue k n (m ∷ l ∷ ms) sm q = follows-Queue k m.substepid (l ∷ ms) sm q.3
