-- ===== src/Client/Tasks.antt =====
-- kvtransfer/src/client.cpp: `add_send_task` and `create_step_tasks`, which group tasks by destination.
use llumnix_kv.Base.{
  ℕ, ◌+◌, Bool, true, false, not, List, [], ◌∷◌, push_back, Option, none, some, ltb, ◌==◌, u32,
  if◌then◌else◌, Result, Error, ok, ◌>>=◌, ◌>>◌, guard, assert, for_each,
}
use llumnix_kv.Env.{Env}
use llumnix_kv.Types.{Bytes, BlockIds, WorkerInfo, RequestInfo, ReqSendTask}
use llumnix_kv.Targets.Map.{bytes_eq}

-- `RTASSERT`, in every build.
abbrev pub rtassert : Bool → Result (Unit {0})
rtassert c = guard c Error.aborted

pub record ReqMeta : Type 0 where
  pub dst_inst : Bytes
  pub dst_worker : ℕ
  pub reqid : Bytes
  pub seen_tokens : ℕ
  pub new_tokens : ℕ
  pub src_block_ids : BlockIds
  pub dst_block_ids : BlockIds
  pub dst_worker_info : Option WorkerInfo

-- `step` is the address of the `Step`.
pub record BatchSendTask : Type 0 where
  pub step : Option ℕ
  pub tasks : List ReqSendTask
  pub substepid : ℕ

abbrev pub Workers : Type 0
Workers = List (ℕ × BatchSendTask)

pub record StepTasks : Type 0 where
  pub tasks : List (Bytes × Workers)
  pub stepid : ℕ
  pub substepid : ℕ

abbrev pub is_empty : StepTasks → Bool
is_empty st = elim st.tasks [ [] ↦ true | _ ∷ _ ↦ false ]

-- The debug fields of a `RequestInfo`. `last_seen` is UINT32_MAX at first.
pub record Sent : Type 0 where
  pub last_seen : ℕ
  pub has_last : Bool

-- The requests made so far: the next handle, and the debug fields of each.
pub record Requests : Type 0 where
  pub next_handle : ℕ
  pub sends : ℕ → Sent

abbrev pub uint32_max : ℕ
uint32_max = 4294967295

-- `update_send`: its body is compiled where `assert` is.
unfoldable pub update_send : Env → Requests → ℕ → ℕ → ℕ → Bool → Result Requests
update_send env rs handle seen new_tokens has_last =
    let sent = rs.sends handle in
    let last = if sent.last_seen == uint32_max then seen else sent.last_seen in
    let next : Sent = record { last_seen = u32 (last + new_tokens); has_last = has_last } in
    if env.asserts
    then (do
      assert true (not sent.has_last)
      assert true (last == seen)
      ok (record rs { sends = λ h. if h == handle then next else rs.sends h }))
    else ok rs

abbrev pub no_step : BatchSendTask → Bool
no_step b = elim b.step [ none ↦ true | some _ ↦ false ]

-- The batch of a worker, found or made, with the task at its end.
unfoldable pub add_worker : Env → ℕ → ReqSendTask → Workers → Result Workers
add_worker env w task [] = ok ((w, record { step = none; tasks = task ∷ []; substepid = 0 }) ∷ [])
add_worker env w task ((v, b) ∷ bs) =
    let rest = add_worker env w task bs in
    if v == w
    then assert env.asserts (no_step b)
      >> ok ((v, record b { tasks = push_back b.tasks task }) ∷ bs)
    else (rest >>= λ r. ok ((v, b) ∷ r))

-- `steptasks.tasks[inst]`, with the task added.
unfoldable pub add_instance :
    Env → Bytes → ℕ → ReqSendTask → List (Bytes × Workers) → Result (List (Bytes × Workers))
add_instance env i w task [] = add_worker env w task [] >>= λ ws. ok ((i, ws) ∷ [])
add_instance env i w task ((j, ws) ∷ rest) =
    let later = add_instance env i w task rest in
    if bytes_eq j i
    then (add_worker env w task ws >>= λ ws'. ok ((j, ws') ∷ rest))
    else (later >>= λ r. ok ((j, ws) ∷ r))

unfoldable pub add_send_task :
    Env → RequestInfo → ℕ → ℕ → Bool → StepTasks × Requests → Result (StepTasks × Requests)
add_send_task env req seen new_tokens has_last (st, rs) = do
  rs' ← update_send env rs req.handle seen new_tokens has_last
  let task : ReqSendTask = record {
    req = req;
    seen_tokens = seen;
    new_tokens = new_tokens;
    reach_last_token = has_last;
  }
  tasks ← add_instance env req.dst_inst_id req.dst_worker_id task st.tasks
  ok (record st { tasks = tasks }, rs')

-- `make_shared<RequestInfo>`: a new address.
unfoldable pub new_request :
    Requests → Bytes → ℕ → Option WorkerInfo → Bytes → BlockIds → BlockIds → RequestInfo × Requests
new_request rs inst_id worker_id info req_id src dst = (
  record {
    handle = rs.next_handle;
    dst_inst_id = inst_id;
    dst_worker_id = worker_id;
    dst_worker_info = info;
    req_id = req_id;
    src_blocks = src;
    dst_blocks = dst;
  },
  record {
    next_handle = rs.next_handle + 1;
    sends = λ h.
        if h == rs.next_handle
        then record { last_seen = uint32_max; has_last = false }
        else rs.sends h;
  },
)

-- A round of the loop of `create_step_tasks`.
unfoldable pub add_meta : Env → ReqMeta → StepTasks × Requests → Result (StepTasks × Requests)
add_meta env meta (st, rs) = do
  rtassert (ltb 0 meta.new_tokens)
  let made =
      new_request rs meta.dst_inst meta.dst_worker meta.dst_worker_info meta.reqid
        meta.src_block_ids meta.dst_block_ids
  add_send_task env made.0 meta.seen_tokens meta.new_tokens true (st, made.1)

unfoldable pub create_step_tasks :
    Env → ℕ → ℕ → List ReqMeta → Requests → Result (StepTasks × Requests)
create_step_tasks env stepid substepid metas rs =
    for_each metas (add_meta env)
      (record { tasks = []; stepid = stepid; substepid = substepid }, rs)
