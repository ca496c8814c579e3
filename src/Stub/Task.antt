-- ===== src/Stub/Task.antt =====
-- kvtransfer/src/tx_stub.cpp: `TaskContext::do_task`, which sends one batch and settles the states of
-- its requests.
use llumnix_kv.Base.{
  ℕ, ◌-◌, Bool, true, false, ◌&&◌, ◌||◌, not, List, [], ◌∷◌, length, push_back, Option, none, some,
  ltb, ◌==◌, if◌then◌else◌, Result, Error, ok, err, ◌>>=◌, ◌>>◌, assert, for_each, for_range,
}
use llumnix_kv.Env.{Env}
use llumnix_kv.Types.{Bytes, TpKind, WorkerInfo, ReqState, States, ReqSendTask}
use llumnix_kv.Shape.{SendBlocks, sizes_eq}
use llumnix_kv.Stub.Context.{TaskContext, Step, try_create_channel, with_ch}
use llumnix_kv.Stub.Selection.{ParseBlockFunc}

-- What the sender calls: the naming service, the channel, the step, and the block generators behind
-- the pointer `parse_block`.
pub record Calls : Type 0 where
  pub get_worker_info : Option WorkerInfo
  pub is_active : Bool
  pub create : WorkerInfo → Result (Unit {0})
  pub run :
      ParseBlockFunc
      → WorkerInfo
      → WorkerInfo
      → List Bool
      → ℕ
      → ℕ
      → ReqSendTask
      → SendBlocks
      → Result SendBlocks
  pub register_data : SendBlocks → TpKind → Result (Unit {0})
  pub wait_layer_ready : ℕ → Result (Unit {0})
  pub send_data : ℕ → Result (Unit {0})
  pub flush : Result (Unit {0})

-- `KvSendStub`.
pub record KvSendStub : Type 0 where
  pub dstid : Bytes
  pub dstworkerid : ℕ
  pub src_info : WorkerInfo
  pub start_layer : ℕ
  pub num_layers : ℕ

abbrev pub set_state : States → ReqSendTask → ReqState → States
set_state states task s h = if h == task.req.handle then s else states h

abbrev pub state : States → ReqSendTask → ReqState
state states task = states task.req.handle

abbrev pub is_inprocess : ReqState → Bool
is_inprocess ReqState.inprocess = true
is_inprocess _ = false

abbrev pub is_failed : ReqState → Bool
is_failed ReqState.failed = true
is_failed _ = false

-- `send_req` and `finished_req`.
pub record Sorted : Type 0 where
  pub send_req : List ReqSendTask
  pub finished_req : List ReqSendTask

-- One round of the loop over the batch.
unfoldable pub sort_task : Env → KvSendStub → States → ReqSendTask → Sorted → Result Sorted
sort_task env stub states task s = do
  assert env.asserts (sizes_eq task.req.dst_inst_id stub.dstid)
  assert env.asserts (task.req.dst_worker_id == stub.dstworkerid)
  let finished = if task.reach_last_token then push_back s.finished_req task else s.finished_req
  let skip = task.new_tokens == 0 || is_failed (state states task)
  assert (env.asserts && not skip) (is_inprocess (state states task))
  ok (record {
    send_req = if skip then s.send_req else push_back s.send_req task;
    finished_req = finished;
  })

unfoldable pub do_send : KvSendStub → Calls → SendBlocks → TpKind → Result (Unit {0})
do_send stub calls send_blocks tpkind = do
  calls.register_data send_blocks tpkind
  for_range (stub.num_layers - stub.start_layer) stub.start_layer
      (λ i _. calls.wait_layer_ready i >> calls.send_data i) tt
  calls.flush

-- `!send_blocks.empty() && !send_blocks[0].empty()`.
abbrev pub has_blocks : SendBlocks → Bool
has_blocks [] = false
has_blocks ([] ∷ _) = false
has_blocks ((_ ∷ _) ∷ _) = true

-- `assert(!sb.empty())`.
unfoldable pub all_filled : SendBlocks → Bool
all_filled [] = true
all_filled ([] ∷ sbs) = false
all_filled ((_ ∷ _) ∷ sbs) = all_filled sbs

-- The `try` block from the call of `parse_block` on.
unfoldable pub parse_and_send :
    Env
    → KvSendStub
    → Calls
    → List ReqSendTask
    → ParseBlockFunc
    → WorkerInfo
    → TaskContext
    → Result (Unit {0})
parse_and_send env stub calls send_req f dst c = do
  send_blocks ←
      for_each send_req
        (λ task send_blocks.
          calls.run f stub.src_info dst c.valid_ranks c.kvt_tp_size c.kvt_tp_rank task send_blocks)
        []
  assert (env.asserts && has_blocks send_blocks) (all_filled send_blocks)
  if has_blocks send_blocks then do_send stub calls send_blocks c.tpkind else ok tt

-- The `try` block. The pointer is asserted, then called.
unfoldable pub try_send : Env → KvSendStub → Calls → List ReqSendTask → TaskContext → Step
try_send env stub calls send_req c =
    let (c', r) =
      try_create_channel env stub.src_info calls.get_worker_info calls.is_active calls.create c in
    let known : Bool = elim c'.tpkind [ TpKind.unknown ↦ false | _ ↦ true ] in
    elim r [
      | err e ↦ (c', err e)
      | ok _ ↦ elim c'.parse_block [
        | none ↦ (c', err (if env.asserts then Error.aborted else Error.undefined))
        | some f ↦ elim c'.dstinfo [
          | none ↦ (c', err Error.runtime_error)
          | some dst ↦
              (c', assert env.asserts known >> parse_and_send env stub calls send_req f dst c')
        ]
      ]
    ]

-- What `catch (std::exception&)` catches; an abort or undefined behaviour goes on.
abbrev pub is_exception : Error → Bool
is_exception Error.aborted = false
is_exception Error.undefined = false
is_exception Error.diverges = false
is_exception _ = true

-- The handler: every request of the batch has failed.
unfoldable pub fail_all : Env → List ReqSendTask → States → Result States
fail_all env tasks states =
    for_each tasks
      (λ task st.
        assert env.asserts (is_inprocess (state st task) || is_failed (state st task))
        >> ok (set_state st task ReqState.failed))
      states

pub record Outcome : Type 0 where
  pub context : TaskContext
  pub states : States

-- How the `try` block ends, and its handler.
unfoldable pub handle : Env → List ReqSendTask → States → Step → Result Outcome
handle env tasks states (c, ok _) = ok (record { context = c; states = states })
handle env tasks states (c, err e) =
    let failed = fail_all env tasks states in
    if is_exception e
    then (failed >>= (λ st. ok (record { context = with_ch c false; states = st })))
    else err e

-- One round of the loop over `finished_req`.
unfoldable pub settle : Env → ReqSendTask → States → Result States
settle env task states = do
  assert env.asserts task.reach_last_token
  ok (
      if is_inprocess (state states task)
      then set_state states task
          (if task.new_tokens == 0 then ReqState.failed else ReqState.finished)
      else states)

-- `do_task`, up to the notification of `finished_req`.
unfoldable pub do_task :
    Env → KvSendStub → Calls → List ReqSendTask → TaskContext → States → Result Outcome
do_task env stub calls tasks c states = do
  assert env.asserts (ltb 0 (length tasks))
  sorted ← for_each tasks (sort_task env stub states) (record { send_req = []; finished_req = [] })
  sent ←
      if ltb 0 (length sorted.send_req)
      then handle env tasks states (try_send env stub calls sorted.send_req c)
      else ok (record { context = c; states = states })
  settled ← for_each sorted.finished_req (settle env) sent.states
  ok (record { context = sent.context; states = settled })
