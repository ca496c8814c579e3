-- ===== src/Client/State.antt =====
-- kvtransfer/src/client.cpp: the state of `KvTransferClient` and the calls that bring in requests. A call is
-- one transition: the lock `coord_lock_` makes its access to the shared fields atomic, and what it does
-- outside of the lock it does to values of its own and to the queue of `mgr_`, which takes one
-- submission at a time.
use llumnix_kv.Base.{
  ℕ, ◌+◌, Bool, true, ◌&&◌, List, [], ◌∷◌, push_back, Option, none, some, ltb, ◌==◌, if◌then◌else◌,
  Result, ok, ◌>>=◌, ◌>>◌, assert, for_each,
}
use llumnix_kv.Env.{Env}
use llumnix_kv.Types.{Bytes, WorkerInfo, RequestInfo}
use llumnix_kv.Steps.Threads.{Action}
use llumnix_kv.Targets.Map.{bytes_eq}
use llumnix_kv.Client.Tasks.{
  ReqMeta, StepTasks, Requests, is_empty, rtassert, add_send_task, new_request, create_step_tasks,
}

-- A `Step`, by its address.
pub record StepRef : Type 0 where
  pub place : ℕ
  pub step_idx : ℕ

pub record StepMetas : Type 0 where
  pub stepid : ℕ
  pub substepid : ℕ
  pub metas : List ReqMeta

-- A call of `mgr_.submit`. `ready` holds where all layers of the step are set ready before it.
pub record Submission : Type 0 where
  pub step : StepRef
  pub ready : Bool
  pub tasks : StepTasks

-- `reqs_` is an association list. `next_step` is the next address of a `Step`, `submitted` are the
-- submissions so far, and `signals` the calls on the guards, each with its step.
pub record KvTransferClient : Type 0 where
  pub reqs : List (Bytes × List RequestInfo)
  pub targets_tasks_buf : StepTasks
  pub requests : Requests
  pub coord_step_id : ℕ
  pub last_step_guard : Option StepRef
  pub pending_step_metas : List StepMetas
  pub next_step : ℕ
  pub submitted : List Submission
  pub signals : List (ℕ × Action)

abbrev pub no_tasks : StepTasks
no_tasks = record { tasks = []; stepid = 0; substepid = 0 }

-- `make_shared<Step>`
abbrev pub made_step : KvTransferClient → ℕ → StepRef
made_step c stepid = record { place = c.next_step; step_idx = stepid }

abbrev pub submit : StepRef → Bool → StepTasks → KvTransferClient → KvTransferClient
submit step ready st c = record c {
  submitted = push_back c.submitted (record { step = step; ready = ready; tasks = st });
}

-- `start_req_send`
unfoldable pub start_req_send :
    Env → List ReqMeta → ℕ → ℕ → KvTransferClient → Result KvTransferClient
start_req_send env metas stepid substepid c = do
  made ← create_step_tasks env stepid substepid metas c.requests
  let c' : KvTransferClient = record c { requests = made.1 }
  ok (
      if is_empty made.0
      then c'
      else submit (made_step c stepid) true made.0 (record c' { next_step = c.next_step + 1 }))

-- The check that the buffer is of this substep; an empty one becomes so.
unfoldable pub claim_buf : ℕ → ℕ → KvTransferClient → Result KvTransferClient
claim_buf stepid substepid c =
    let buf = c.targets_tasks_buf in
    if is_empty buf
    then ok (record c { targets_tasks_buf = record buf { stepid = stepid; substepid = substepid } })
    else (rtassert (buf.stepid == stepid) >> rtassert (buf.substepid == substepid) >> ok c)

-- `reqs_[req_id].emplace_back(req)`
unfoldable pub enroll :
    Bytes → RequestInfo → List (Bytes × List RequestInfo) → List (Bytes × List RequestInfo)
enroll i req [] = (i, req ∷ []) ∷ []
enroll i req ((j, rs) ∷ m) =
    let rest = enroll i req m in if bytes_eq i j then (j, push_back rs req) ∷ m else (j, rs) ∷ rest

unfoldable pub enrolled : Bytes → List (Bytes × List RequestInfo) → Option (List RequestInfo)
enrolled i [] = none
enrolled i ((j, rs) ∷ m) = if bytes_eq i j then some rs else enrolled i m

unfoldable pub discharge : Bytes → List (Bytes × List RequestInfo) → List (Bytes × List RequestInfo)
discharge i [] = []
discharge i ((j, rs) ∷ m) =
    let rest = discharge i m in if bytes_eq i j then rest else (j, rs) ∷ rest

-- `submit_req_send`. `from_string` reads the description of the destination.
unfoldable pub submit_req_send :
    Env
    → (Option Bytes → Result (Option WorkerInfo))
    → ReqMeta
    → Option Bytes
    → Bool
    → ℕ
    → ℕ
    → KvTransferClient
    → Result KvTransferClient
submit_req_send env from_string meta info has_last stepid substepid c = do
  assert env.asserts (substepid == 0)
  rtassert (ltb 0 meta.new_tokens)
  parsed ← from_string info
  c₁ ← claim_buf stepid substepid c
  let made =
      new_request c₁.requests meta.dst_inst meta.dst_worker parsed meta.reqid meta.src_block_ids
        meta.dst_block_ids
  added ←
      add_send_task env made.0 meta.seen_tokens meta.new_tokens has_last
        (c₁.targets_tasks_buf, made.1)
  ok (record c₁ {
    targets_tasks_buf = added.0;
    requests = added.1;
    reqs = if has_last then c₁.reqs else enroll meta.reqid made.0 c₁.reqs;
  })

-- From the loop of `submit_delta_send` on, where the request is known.
unfoldable pub send_delta :
    Env
    → Bytes
    → ℕ
    → ℕ
    → Bool
    → KvTransferClient
    → Option (List RequestInfo)
    → Result KvTransferClient
send_delta env req_id seen new_tokens has_last c none = ok c
send_delta env req_id seen new_tokens has_last c (some rs) = do
  assert (env.asserts && new_tokens == 0) has_last
  added ←
      for_each rs (λ req s. add_send_task env req seen new_tokens has_last s)
        (c.targets_tasks_buf, c.requests)
  ok (record c {
    targets_tasks_buf = added.0;
    requests = added.1;
    reqs = if has_last then discharge req_id c.reqs else c.reqs;
  })

unfoldable pub submit_delta_send :
    Env → Bytes → ℕ → ℕ → Bool → ℕ → ℕ → KvTransferClient → Result KvTransferClient
submit_delta_send env req_id seen new_tokens has_last stepid substepid c = do
  assert env.asserts (substepid == 0)
  c' ← claim_buf stepid substepid c
  send_delta env req_id seen new_tokens has_last c' (enrolled req_id c'.reqs)
