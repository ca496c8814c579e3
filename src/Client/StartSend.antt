-- ===== src/Client/StartSend.antt =====
-- kvtransfer/src/client.cpp: `start_send_substep`, `start_send`, and the calls on the guard of a step.
use llumnix_kv.Base.{
  ℕ, ◌+◌, Bool, true, false, not, ◌&&◌, List, [], ◌∷◌, push_back, Option, none, some, ltb, ◌==◌,
  if◌then◌else◌, Result, Error, ok, err, ◌>>=◌, ◌>>◌, assert, for_each,
}
use llumnix_kv.Env.{Env}
use llumnix_kv.Steps.Threads.{Action}
use llumnix_kv.Client.Tasks.{ReqMeta, is_empty, rtassert, create_step_tasks}
use llumnix_kv.Client.State.{
  KvTransferClient, StepMetas, StepRef, made_step, submit, no_tasks, start_req_send,
}

-- The `Action` of `start_send_substep`.
pub data SubstepAction : Type 0 where
  pending new_freeze : SubstepAction
  attach_current : StepRef → SubstepAction

abbrev pub or_freeze : Option StepRef → SubstepAction
or_freeze none = SubstepAction.new_freeze
or_freeze (some step) = SubstepAction.attach_current step

abbrev pub substep_action : ℕ → KvTransferClient → SubstepAction
substep_action stepid c =
    if ltb stepid c.coord_step_id
    then SubstepAction.new_freeze
    else if ltb c.coord_step_id stepid
    then SubstepAction.pending
    else or_freeze c.last_step_guard

-- The checks before a substep joins the pending ones, on the last of these.
unfoldable pub follows : ℕ → ℕ → List StepMetas → Result (Unit {0})
follows stepid substepid [] = ok tt
follows stepid substepid (m ∷ []) =
    rtassert (m.stepid == stepid) >> rtassert (ltb m.substepid substepid)
follows stepid substepid (m ∷ n ∷ ms) = follows stepid substepid (n ∷ ms)

-- `mgr_.submit` of the tasks of a substep, with a step that there is.
unfoldable pub attach : Env → StepRef → StepMetas → KvTransferClient → Result KvTransferClient
attach env step sm c = do
  made ← create_step_tasks env sm.stepid sm.substepid sm.metas c.requests
  assert env.asserts (not (is_empty made.0))
  ok (submit step false made.0 (record c { requests = made.1 }))

unfoldable pub take_action :
    Env → StepMetas → KvTransferClient → SubstepAction → Result KvTransferClient
take_action env sm c SubstepAction.pending = do
  follows sm.stepid sm.substepid c.pending_step_metas
  ok (record c { pending_step_metas = push_back c.pending_step_metas sm })
take_action env sm c SubstepAction.new_freeze = start_req_send env sm.metas sm.stepid sm.substepid c
take_action env sm c (SubstepAction.attach_current step) = attach env step sm c

abbrev pub some_metas : List ReqMeta → Bool
some_metas [] = false
some_metas (m ∷ ms) = true

unfoldable pub start_send_substep : Env → StepMetas → KvTransferClient → Result KvTransferClient
start_send_substep env sm c =
    if some_metas sm.metas then take_action env sm c (substep_action sm.stepid c) else ok c

abbrev pub empty_step_id : ℕ
empty_step_id = 9223372036854775807

-- A round of the loop at the end of `start_send`, with the last `substepid`.
unfoldable pub drain_one :
    Env → StepRef → StepMetas → ℕ × KvTransferClient → Result (ℕ × KvTransferClient)
drain_one env step sm (substepid, c) = do
  assert env.asserts (sm.stepid == step.step_idx)
  assert env.asserts (ltb substepid sm.substepid)
  c' ← attach env step sm c
  ok (sm.substepid, c')

abbrev pub is_none : Option StepRef → Bool
is_none none = true
is_none (some step) = false

-- `start_send` up to the submission of the buffer, which it empties.
unfoldable pub submit_buf : Env → StepRef → KvTransferClient → Result KvTransferClient
submit_buf env step c =
    let buf = c.targets_tasks_buf in
    let c' : KvTransferClient = record c {
      next_step = c.next_step + 1;
      targets_tasks_buf = no_tasks;
    } in
    if is_empty buf
    then ok c'
    else (assert env.asserts (buf.substepid == 0) >> ok (submit step false buf c'))

-- From the lock on.
unfoldable pub enter_step : Env → StepRef → KvTransferClient → Result KvTransferClient
enter_step env step c = do
  assert env.asserts (is_none c.last_step_guard)
  drained ← for_each c.pending_step_metas (drain_one env step) (
    0,
    record c {
      coord_step_id = step.step_idx;
      last_step_guard = some step;
      pending_step_metas = [];
    },
  )
  ok drained.1

-- `start_send` with a step.
unfoldable pub start_step : Env → ℕ → KvTransferClient → Result KvTransferClient
start_step env stepid c =
    submit_buf env (made_step c stepid) c >>= enter_step env (made_step c stepid)

unfoldable pub start_send : Env → ℕ → ℕ → KvTransferClient → Result (KvTransferClient × ℕ)
start_send env stepid sched_tokens c =
    if sched_tokens == 0 && is_empty c.targets_tasks_buf
    then ok (c, empty_step_id)
    else (start_step env stepid c >>= λ c'. ok (c', stepid))

-- The guard of the step, or the exception.
abbrev pub guard_of : ℕ → Option StepRef → Result StepRef
guard_of stepid none = err Error.invalid_operation
guard_of stepid (some step) =
    if step.step_idx == stepid then ok step else err Error.invalid_operation

unfoldable pub notify_event_record : Env → ℕ → KvTransferClient → Result KvTransferClient
notify_event_record env stepid c = do
  assert env.asserts (is_empty c.targets_tasks_buf)
  step ← guard_of stepid c.last_step_guard
  ok (record c { signals = push_back c.signals (step.place, Action.record_one) })

unfoldable pub flush_send : Env → ℕ → KvTransferClient → Result KvTransferClient
flush_send env stepid c = do
  assert env.asserts (is_empty c.targets_tasks_buf)
  step ← guard_of stepid c.last_step_guard
  let none_pending : Bool = elim c.pending_step_metas [ [] ↦ true | _ ∷ _ ↦ false ]
  assert env.asserts none_pending
  ok (record c { signals = push_back c.signals (step.place, Action.flush); last_step_guard = none })
