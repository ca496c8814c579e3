-- ===== src/Tests/Sending.antt =====
-- Runs of the sender of one destination (kvtransfer/src/tx_stub.cpp).
use mathlib.Core.List.{Mem}
use llumnix_kv.Base.{
  ◌+◌, ◌≡◌, refl, sym, ap, ◌∙◌, ◌⊎◌, Bool, true, false, List, [], ◌∷◌, ◌++◌, map, replicate, none,
  some, Error, ok, err, ◌>>=◌, assert, mod_by, if◌then◌else◌, ◌==◌, All, for_each, for_range, arith,
}
use llumnix_kv.Env.{Env}
use llumnix_kv.Types.{TpKind, WorkerInfo, ReqState, States, ReqSendTask, pos}
use llumnix_kv.Shape.{count}
use llumnix_kv.Stub.Ranks.{compute_valid_ranks_pd, ranks_p_lt_d, set_every, set_bit, assert_divides}
use llumnix_kv.Stub.Effective.{Chosen, Divisible, senders, valid_ranks_total}
use llumnix_kv.Stub.Context.{
  TaskContext, new_context, with_addr, refresh_dst_info, try_create_channel,
}
use llumnix_kv.Stub.Selection.{ParseBlockFunc, select, selection_p_tp}
use llumnix_kv.Stub.Binding.{Refreshed, refresh-bound, refresh-unsupported}
use llumnix_kv.Stub.Task.{
  KvSendStub, Calls, Outcome, state, is_inprocess, sort_task, do_send, all_filled, parse_and_send,
  try_send, handle, settle, do_task, is_exception,
}
use llumnix_kv.Stub.Settled.{do_task-failed, do_task-settled, do_task-finished}
use llumnix_kv.Stub.Sorted.{skipped, to_send, to_finish}
use llumnix_kv.Stub.Finishes.{do_task-finisher}
use llumnix_kv.Stub.Returns.{do_task-returns}
use llumnix_kv.Stub.States.{settle_states}
use llumnix_kv.Stub.Notify.{
  send_done_buf, send_done_req, save_done2_req, has_ver2, send_save_done_head_kind,
}
use llumnix_kv.Stub.Decode.{read_message, meaning, message, send_done_buf-read}
use llumnix_kv.Tests.{plain_env, last_task, worker}

-- Eight ranks of P, two heads, four ranks of D.
eight-Divisible : Divisible 8 4 2
eight-Divisible = record {
  some_p = omega arith;
  some_d = omega arith;
  most = omega arith;
  fan_out = λ h. absurd (omega arith);
  mixed_p = λ h k. absurd (omega arith);
  mixed_d = λ h k. absurd (omega arith);
  by_head = λ h k l. absurd (omega arith);
  few_heads = λ h k l. refl;
  by_dst = λ h k l. refl;
}

valid_ranks_total_example : Chosen (senders 8 4 2) 8 (compute_valid_ranks_pd plain_env 8 4 (pos 2))
valid_ranks_total_example = valid_ranks_total plain_env 8 4 (pos 2) eight-Divisible

abbrev peer : WorkerInfo
peer = worker 1 0 4 16

abbrev bound_context : TaskContext
bound_context = record {
  tpkind = TpKind.peqd;
  parse_block = some ParseBlockFunc.parse_block_send_p_eq_d;
  dstinfo = some peer;
  ch = true;
  valid_ranks = true ∷ [];
  kvt_tp_size = 1;
  kvt_tp_rank = 0;
}

-- The peer at another address, and another worker.
abbrev moved_peer : WorkerInfo
moved_peer = with_addr peer (record peer { addr = 49 ∷ [] })

refresh-bound_example :
    Refreshed peer
      (some moved_peer)
      bound_context
      (refresh_dst_info plain_env peer (some moved_peer) bound_context)
refresh-bound_example = refresh-bound plain_env peer peer (some moved_peer) bound_context refl

-- FLASH_CACHE_SHAPE has no function for P < D.
abbrev flash_env : Env
flash_env = record {
  asserts = true;
  bf162fp8_conversion = false;
  pad_last_attn_block = false;
  cache_shape = 2;
  send_done_head_kind = 2;
  txstub_cap = 8;
}

abbrev wide_peer : WorkerInfo
wide_peer = worker 2 0 2 8

abbrev one_rank : List Bool
one_rank = true ∷ replicate 15 false

one_rank_chosen : compute_valid_ranks_pd flash_env 1 2 (pos 2) ≡ ok one_rank
unfolding compute_valid_ranks_pd ranks_p_lt_d assert_divides set_every set_bit for_range mod_by
    assert ◌>>=◌
one_rank_chosen = refl

flash_unsupported : select 2 peer wide_peer (selection_p_tp 2 peer (count one_rank)) ≡ none
unfolding select selection_p_tp
flash_unsupported = refl

refresh-unsupported_example :
    ((refresh_dst_info flash_env peer (some wide_peer) new_context).1 ≡ err Error.runtime_error)
    × ((refresh_dst_info flash_env peer none
          (refresh_dst_info flash_env peer (some wide_peer) new_context).0).1
        ≡ ok tt)
    × ((refresh_dst_info flash_env peer none
          (refresh_dst_info flash_env peer (some wide_peer) new_context).0).0.parse_block
        ≡ none)
refresh-unsupported_example =
    refresh-unsupported flash_env peer wide_peer one_rank none one_rank_chosen flash_unsupported

-- A transfer in which everything succeeds.
abbrev calls : Calls
calls = record {
  get_worker_info = none;
  is_active = true;
  create = λ info. ok tt;
  run = λ f src dst ranks size rank task blocks.
      ok ((record { src_offset = 0; dst_offset = 0; length = 4 } ∷ []) ∷ []);
  register_data = λ blocks kind. ok tt;
  wait_layer_ready = λ layer. ok tt;
  send_data = λ layer. ok tt;
  flush = ok tt;
}

abbrev stub : KvSendStub
stub = record {
  dstid = 100 ∷ [];
  dstworkerid = 0;
  src_info = peer;
  start_layer = 0;
  num_layers = 2;
}

-- Request 9 has failed before.
abbrev before : States
before h = if h == 9 then ReqState.failed else ReqState.inprocess

abbrev after : Outcome
after = record { context = bound_context; states = settle_states last_task before }

task_run : do_task plain_env stub calls (last_task ∷ []) bound_context before ≡ ok after
unfolding do_task sort_task try_send try_create_channel parse_and_send do_send all_filled handle
    settle for_each for_range assert ◌>>=◌
task_run = refl

do_task-failed_example : after.states 9 ≡ ReqState.failed
do_task-failed_example =
    do_task-failed plain_env stub calls (last_task ∷ []) bound_context before after task_run 9 refl

do_task-settled_example :
    All (λ t. is_inprocess (state after.states t) ≡ false) (to_finish (last_task ∷ []))
do_task-settled_example =
    do_task-settled plain_env stub calls (last_task ∷ []) bound_context before after task_run

do_task-finished_example :
    (before 7 ≡ ReqState.finished)
    ⊎ ((try_send plain_env stub calls (to_send before (last_task ∷ [])) bound_context).1 ≡ ok tt)
do_task-finished_example =
    do_task-finished plain_env stub calls (last_task ∷ []) bound_context before after task_run 7
      refl

do_task-finisher_example :
    (before 7 ≡ ReqState.finished)
    ⊎ ((t : ReqSendTask) × Mem t (to_finish (last_task ∷ []))
        × (7 ≡ t.req.handle)
        × (skipped before t ≡ false))
do_task-finisher_example =
    do_task-finisher plain_env stub calls (last_task ∷ []) bound_context before after task_run 7
      refl

send_done_buf-read_example :
    (send_done_buf plain_env 3 after.states (last_task ∷ [])
      ≡ ok (
          if plain_env.send_done_head_kind == send_save_done_head_kind
          then message plain_env 3 after.states (last_task ∷ []) send_done_req
            ++ message plain_env 3 after.states (last_task ∷ []) save_done2_req
          else message plain_env 3 after.states (last_task ∷ []) send_done_req))
    × (read_message (message plain_env 3 after.states (last_task ∷ []) send_done_req)
        ≡ ok (send_done_req, 3 + has_ver2, map (meaning after.states) (last_task ∷ [])))
    × (read_message (message plain_env 3 after.states (last_task ∷ []) save_done2_req)
        ≡ ok (save_done2_req, 3 + has_ver2, map (meaning after.states) (last_task ∷ [])))
send_done_buf-read_example =
    send_done_buf-read plain_env 3 after.states (last_task ∷ []) (omega arith) (omega arith)
      (refl, tt) (omega arith, tt)

-- The same transfer, with a `flush` that throws.
abbrev failing : Calls
failing = record {
  get_worker_info = none;
  is_active = true;
  create = λ info. ok tt;
  run = λ f src dst ranks size rank task blocks.
      ok ((record { src_offset = 0; dst_offset = 0; length = 4 } ∷ []) ∷ []);
  register_data = λ blocks kind. ok tt;
  wait_layer_ready = λ layer. ok tt;
  send_data = λ layer. ok tt;
  flush = err Error.runtime_error;
}

failing_run :
    (try_send plain_env stub failing (to_send before (last_task ∷ [])) bound_context).1
    ≡ err Error.runtime_error
unfolding try_send try_create_channel parse_and_send do_send all_filled for_each for_range assert
    ◌>>=◌
failing_run = refl

do_task-returns_example :
    (out : Outcome) × (do_task plain_env stub failing (last_task ∷ []) bound_context before
      ≡ ok out)
do_task-returns_example =
    do_task-returns plain_env stub failing (last_task ∷ []) bound_context before (omega arith)
      (record { inst = refl; worker = refl; unfinished = refl }, tt) thrown
  where
    thrown :
        (e : Error)
        → (try_send plain_env stub failing (to_send before (last_task ∷ [])) bound_context).1
          ≡ err e
        → is_exception e ≡ true
    thrown e h =
        let h' : err Error.runtime_error ≡ err e = sym failing_run ∙ h in
        let e' : Error.runtime_error ≡ e = cc in ap is_exception (sym e')
