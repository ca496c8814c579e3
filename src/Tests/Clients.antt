-- ===== src/Tests/Clients.antt =====
-- Runs of the client, its targets and its steps (kvtransfer/src/client.cpp, kvtransfer/src/step.cpp).
use llumnix_kv.Base.{
  ℕ, zero, suc, ◌<◌, ◌≡◌, ◌≢◌, ◌⊎◌, refl, inr, true, false, List, [], ◌∷◌, none, some, All, ok,
  ◌>>=◌, for_each, assert, at, arith,
}
use llumnix_kv.Types.{Bytes}
use llumnix_kv.Steps.Threads.{Pc, new_step, Action, act, run, layer_passes}
use llumnix_kv.Steps.Order.{run-layer_order, run-no_abort}
use llumnix_kv.Steps.Flush.{flush-ready}
use llumnix_kv.Targets.Map.{peek, find, slot, put, write, grow, enter}
use llumnix_kv.Targets.MapLaws.{bytes_eq_iff}
use llumnix_kv.Targets.Manager.{
  TargetMgr, get, get_found, create, or_create, create_or_get, shrink_loop, try_shrink, node,
  modify,
}
use llumnix_kv.Targets.Spec.{place_of}
use llumnix_kv.Targets.Refine.{IsConsistent, Touched, create_or_get-refines}
use llumnix_kv.Targets.Shrink.{Shrunk, try_shrink-refines}
use llumnix_kv.Client.Tasks.{
  ReqMeta, BatchSendTask, StepTasks, Requests, uint32_max, create_step_tasks,
}
use llumnix_kv.Client.Routing.{IsRouted}
use llumnix_kv.Client.Grouped.{Grouped, create_step_tasks-Grouped}
use llumnix_kv.Client.Submit.{submit_to, submit_front, submit_worker, submit_instance, do_submit}
use llumnix_kv.Client.Dispatch.{SmallIds, Dispatched, do_submit-Dispatched}
use llumnix_kv.Client.Schedule.{
  Flight, no_flight, Move, Reach, Reach-IsTracked, IsSafe, Reach-IsSafe,
}
use llumnix_kv.Client.State.{StepMetas, KvTransferClient, no_tasks}
use llumnix_kv.Client.StartSend.{start_send_substep, start_send}
use llumnix_kv.Client.Coord.{IsFilled, Queue, IsCoordinated, Delivered}
use llumnix_kv.Client.Substep.{Kept, Started, start_send_substep-once, start_send-Started}
use llumnix_kv.Tests.{plain_env, request, last_task}

-- The first layer of two is recorded and waited for.
abbrev one_layer : List Action
one_layer =
    Action.wait_layer ∷ Action.record_one ∷ Action.wait_layer ∷ Action.wait_layer
    ∷ Action.wait_layer ∷ []

one_layer_passes : layer_passes (run 2 one_layer new_step) 0 ≡ true
unfolding run act
one_layer_passes = refl

run-layer_order_example :
    ((0 < (run 2 one_layer new_step).waited)
      × ((0 < (run 2 one_layer new_step).records) ⊎ ((run 2 one_layer new_step).flushed ≡ true)))
    ⊎ ((run 2 one_layer new_step).frozen ≡ true)
run-layer_order_example = run-layer_order 2 one_layer 0 (omega arith) one_layer_passes

-- A step that is set ready while the waiting thread is at its first layer.
abbrev frozen : List Action
frozen =
    Action.wait_layer ∷ Action.freeze ∷ Action.record_one ∷ Action.wait_layer ∷ Action.wait_layer
    ∷ Action.wait_layer ∷ []

run-no_abort_example : (run 2 frozen new_step).pc ≢ Pc.aborted
run-no_abort_example = run-no_abort 2 frozen (omega arith)

abbrev seven_turns : List Action
seven_turns =
    Action.wait_layer ∷ Action.wait_layer ∷ Action.wait_layer ∷ Action.wait_layer
    ∷ Action.wait_layer ∷ Action.wait_layer ∷ Action.wait_layer ∷ []

not_flushed : (run 2 (Action.record_one ∷ []) new_step).flushed ≡ false
unfolding run act
not_flushed = refl

flush-ready_example :
    layer_passes
      (run 2 seven_turns (act 2 Action.flush (run 2 (Action.record_one ∷ []) new_step)))
      1
    ≡ true
flush-ready_example =
    flush-ready 2 (Action.record_one ∷ []) seven_turns (omega arith) not_flushed (omega arith) 1
      (omega arith)

-- A manager of one idle target, for worker 1 of instance "d".
abbrev one_target : TargetMgr
one_target = record {
  targets =
      record {
        place = 0;
        dstid = 100 ∷ [];
        dstworkerid = 1;
        worker_info = none;
        inflycnt = 0;
        thread_hint = 0;
      }
      ∷ [];
  target_map = (100 ∷ [], none ∷ some 0 ∷ []) ∷ [];
  thread_hint = 0;
  fresh = 1;
}

one_target_mapped :
    (i : Bytes) (w : ℕ) → peek one_target.target_map i w ≡ place_of i w one_target.targets
unfolding peek find slot
one_target_mapped i zero = ground (arith, bytes_eq_iff i (100 ∷ []))
one_target_mapped i (suc zero) = ground (arith, bytes_eq_iff i (100 ∷ []))
one_target_mapped i (suc (suc w)) = ground (arith, bytes_eq_iff i (100 ∷ []))

one_target-IsConsistent : IsConsistent one_target
one_target-IsConsistent = record {
  mapped = one_target_mapped;
  distinct = (refl, tt, tt);
  allocated = (omega arith, tt);
}

create_or_get-refines_example : Touched plain_env one_target request
create_or_get-refines_example =
    create_or_get-refines plain_env one_target request one_target-IsConsistent (omega arith)

try_shrink-refines_example :
    (m : TargetMgr) × (try_shrink plain_env 0 one_target ≡ ok m) × Shrunk 0 one_target m
try_shrink-refines_example = try_shrink-refines plain_env 0 one_target one_target-IsConsistent

abbrev meta : ℕ → Bytes → ReqMeta
meta worker reqid = record {
  dst_inst = 100 ∷ [];
  dst_worker = worker;
  reqid = reqid;
  seen_tokens = 0;
  new_tokens = 4;
  src_block_ids = (3 ∷ 1 ∷ []) ∷ [];
  dst_block_ids = (0 ∷ 2 ∷ []) ∷ [];
  dst_worker_info = none;
}

abbrev two_metas : List ReqMeta
two_metas = meta 0 (114 ∷ 49 ∷ []) ∷ meta 1 (114 ∷ 50 ∷ []) ∷ []

abbrev no_requests : Requests
no_requests = record {
  next_handle = 0;
  sends = λ h. record { last_seen = uint32_max; has_last = false };
}

create_step_tasks-Grouped_example :
    (st : StepTasks) × (rs : Requests) × (create_step_tasks plain_env 5 1 two_metas no_requests
      ≡ ok (st, rs))
    × Grouped 5 1 two_metas st
create_step_tasks-Grouped_example =
    create_step_tasks-Grouped plain_env 5 1 two_metas no_requests (omega arith, (omega arith, tt))

-- A step of one batch.
abbrev one_batch : BatchSendTask
one_batch = record { step = none; tasks = last_task ∷ []; substepid = 0 }

abbrev one_task : StepTasks
one_task = record { tasks = (100 ∷ [], (0, one_batch) ∷ []) ∷ []; stepid = 5; substepid = 0 }

one_task-IsRouted : IsRouted one_task.tasks
one_task-IsRouted = (
  (
    omega arith,
    (record { fresh = refl; some_task = omega arith; addressed = ((refl, refl), tt) }, tt),
  ),
  tt,
)

one_task-SmallIds : SmallIds one_task.tasks
one_task-SmallIds = ((omega arith, tt), tt)

do_submit-Dispatched_example : Dispatched plain_env 7 one_task no_flight.mgr []
do_submit-Dispatched_example =
    do_submit-Dispatched plain_env 7 one_task no_flight.mgr []
      (Reach-IsTracked {env = plain_env} Reach.start) one_task-SmallIds one_task-IsRouted

-- The step is submitted.
abbrev in_flight : Flight
in_flight = record {
  mgr = record {
    targets =
        record {
          place = 0;
          dstid = 100 ∷ [];
          dstworkerid = 0;
          worker_info = none;
          inflycnt = 1;
          thread_hint = 1;
        }
        ∷ [];
    target_map = (100 ∷ [], some 0 ∷ []) ∷ [];
    thread_hint = 1;
    fresh = 1;
  };
  jobs =
      record { place = 0; hint = 1; batch = record one_batch { step = some 7; substepid = 0 } }
      ∷ [];
}

submits : do_submit plain_env 7 one_task no_flight.mgr ≡ ok (in_flight.mgr, in_flight.jobs)
unfolding do_submit ◌>>=◌ for_each submit_instance submit_worker submit_front submit_to
    create_or_get get get_found or_create create enter grow try_shrink shrink_loop modify node peek
    find slot write put assert at
submits = refl

Reach-IsSafe_example : All (IsSafe plain_env in_flight.mgr) in_flight.jobs
Reach-IsSafe_example = Reach-IsSafe (
    Reach.later Reach.start (
      Move.submit 7 one_task in_flight.mgr in_flight.jobs one_task-SmallIds one_task-IsRouted
        submits refl))

-- Between step 3 and step 4, with a substep of step 4 pending.
abbrev substep : ℕ → StepMetas
substep i = record { stepid = 4; substepid = i; metas = two_metas }

abbrev waiting : KvTransferClient
waiting = record {
  reqs = [];
  targets_tasks_buf = no_tasks;
  requests = no_requests;
  coord_step_id = 3;
  last_step_guard = none;
  pending_step_metas = substep 1 ∷ [];
  next_step = 2;
  submitted = [];
  signals = [];
}

substep-IsFilled : (i : ℕ) → IsFilled (substep i)
substep-IsFilled i = record {
  first = meta 0 (114 ∷ 49 ∷ []);
  rest = meta 1 (114 ∷ 50 ∷ []) ∷ [];
  some_meta = refl;
  some_tokens = (omega arith, (omega arith, tt));
}

waiting-Queue : Queue 4 0 waiting.pending_step_metas
waiting-Queue = (refl, omega arith, substep-IsFilled 1, tt)

waiting-IsCoordinated : IsCoordinated 4 waiting
waiting-IsCoordinated = record {
  current = λ s e. absurd (cc);
  queue = waiting-Queue;
  ahead = inr (omega arith);
}

start_send_substep-once_example :
    (c : KvTransferClient) × (start_send_substep plain_env (substep 2) waiting ≡ ok c)
    × (Delivered (substep 2) waiting c ⊎ Kept (substep 2) waiting c)
start_send_substep-once_example =
    start_send_substep-once plain_env 4 (substep 2) waiting waiting-IsCoordinated
      (substep-IsFilled 2)
      (λ h. (refl, omega arith, substep-IsFilled 1, (refl, omega arith, substep-IsFilled 2, tt)))

start_send-Started_example :
    (c : KvTransferClient) × (start_send plain_env 4 8 waiting ≡ ok (c, 4)) × Started 4 waiting c
start_send-Started_example =
    start_send-Started plain_env 4 8 waiting waiting-Queue refl (λ e. refl) refl
