-- ===== src/Client/Submit.antt =====
-- kvtransfer/src/client.cpp: `TargetMgr::do_submit`, which hands each batch of a step to the thread of its
-- target, and the job that runs there.
use llumnix_kv.Base.{
  ℕ, ◌+◌, ◌-◌, Bool, List, [], ◌∷◌, push_back, Option, none, some, ltb, ◌==◌, if◌then◌else◌, Result,
  Error, ok, err, ◌>>=◌, ◌>>◌, assert, for_each,
}
use llumnix_kv.Env.{Env}
use llumnix_kv.Types.{Bytes, ReqSendTask}
use llumnix_kv.Targets.Manager.{Target, TargetMgr, create_or_get, try_shrink, node, modify}
use llumnix_kv.Client.Tasks.{BatchSendTask, Workers, StepTasks, no_step}

-- What `Submit` is given: the pointer to the target, the thread, and the batch.
pub record Job : Type 0 where
  pub place : ℕ
  pub hint : ℕ
  pub batch : BatchSendTask

abbrev pub Submitting : Type 0
Submitting = TargetMgr × List Job

-- The target has one batch more. An idle one gets the next thread.
abbrev pub enlist : ℕ → Target → Target
enlist hint t = record t { inflycnt = t.inflycnt + 1; thread_hint = hint }

unfoldable pub submit_to : ℕ → BatchSendTask → Submitting → Option Target → Result Submitting
submit_to place batch (m, jobs) none = err Error.undefined
submit_to place batch (m, jobs) (some t) =
    let next = if t.inflycnt == 0 then m.thread_hint + 1 else m.thread_hint in
    let hint = if t.inflycnt == 0 then next else t.thread_hint in
    ok (
      record m { targets = modify place (enlist hint) m.targets; thread_hint = next },
      push_back jobs (record { place = place; hint = hint; batch = batch }),
    )

-- From `worker_tasks.tasks.front()` on.
unfoldable pub submit_front :
    Env → BatchSendTask → List ReqSendTask → Submitting → Result Submitting
submit_front env batch [] s = err Error.undefined
submit_front env batch (t ∷ ts) (m, jobs) = do
  got ← create_or_get env m t.req
  submit_to got.1 batch (got.0, jobs) (node got.1 got.0.targets)

-- The inner loop.
unfoldable pub submit_worker : Env → ℕ → ℕ → ℕ × BatchSendTask → Submitting → Result Submitting
submit_worker env step substepid (worker_id, b) s = do
  assert env.asserts (no_step b)
  let batch : BatchSendTask = record b { step = some step; substepid = substepid }
  let filled : Bool = elim b.tasks [ [] ↦ Bool.false | _ ∷ _ ↦ Bool.true ]
  assert env.asserts filled
  submit_front env batch b.tasks s

-- The outer loop.
unfoldable pub submit_instance : Env → ℕ → ℕ → Bytes × Workers → Submitting → Result Submitting
submit_instance env step substepid (inst_id, ws) s = do
  let filled : Bool = elim ws [ [] ↦ Bool.false | _ ∷ _ ↦ Bool.true ]
  assert env.asserts filled
  for_each ws (submit_worker env step substepid) s

-- `do_submit`, with the jobs that it submits.
unfoldable pub do_submit : Env → ℕ → StepTasks → TargetMgr → Result Submitting
do_submit env step st m = do
  s ← for_each st.tasks (submit_instance env step st.substepid) (m, [])
  m' ← try_shrink env env.txstub_cap s.0
  ok (m', s.1)

-- The end of a job: it has run `send_batch`, and writes to its target.
unfoldable pub finish_target : Env → TargetMgr → ℕ → Option Target → Result TargetMgr
finish_target env m place none = err Error.undefined
finish_target env m place (some t) = do
  assert env.asserts (ltb 0 t.inflycnt)
  ok (record m { targets = modify place (λ u. record u { inflycnt = u.inflycnt - 1 }) m.targets })

unfoldable pub finish_job : Env → TargetMgr → Job → Result TargetMgr
finish_job env m job = finish_target env m job.place (node job.place m.targets)
