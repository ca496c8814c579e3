-- ===== src/Client/Grouped.antt =====
-- `create_step_tasks` (kvtransfer/src/client.cpp): the tasks of each destination are its metas, in order.
use llumnix_kv.Base.{
  ℕ, ◌+◌, ◌<◌, ◌≡◌, refl, sym, ap, ◌∙◌, Bool, true, false, inl, inr, ==_iff, List, [], ◌∷◌, ◌++◌,
  map, push_back, append_assoc, append-nil, lt→ltb, u32, ◌==◌, if◌then◌else◌, Bool-cases, All, ok,
  ◌>>=◌, assert, for_each,
}
use mathlib.Core.List.{map-append}
use llumnix_kv.Env.{Env}
use llumnix_kv.Types.{Bytes, ReqSendTask}
use llumnix_kv.Targets.MapLaws.{same_key}
use llumnix_kv.Client.Tasks.{
  ReqMeta, StepTasks, Requests, uint32_max, update_send, add_send_task, new_request, add_meta,
  create_step_tasks,
}
use llumnix_kv.Client.Routing.{tasks_for, IsRouted, add_instance_total}

-- What a task was made for.
abbrev pub meta_of : ReqSendTask → ReqMeta
meta_of t = record {
  dst_inst = t.req.dst_inst_id;
  dst_worker = t.req.dst_worker_id;
  reqid = t.req.req_id;
  seen_tokens = t.seen_tokens;
  new_tokens = t.new_tokens;
  src_block_ids = t.req.src_blocks;
  dst_block_ids = t.req.dst_blocks;
  dst_worker_info = t.req.dst_worker_info;
}

-- The metas of a destination.
abbrev pub metas_for : Bytes → ℕ → List ReqMeta → List ReqMeta
metas_for j x [] = []
metas_for j x (m ∷ ms) =
    let rest = metas_for j x ms in if same_key j x m.dst_inst m.dst_worker then m ∷ rest else rest

abbrev task_of : ReqMeta → ℕ → ReqSendTask
task_of m handle = record {
  req = record {
    handle = handle;
    dst_inst_id = m.dst_inst;
    dst_worker_id = m.dst_worker;
    dst_worker_info = m.dst_worker_info;
    req_id = m.reqid;
    src_blocks = m.src_block_ids;
    dst_blocks = m.dst_block_ids;
  };
  seen_tokens = m.seen_tokens;
  new_tokens = m.new_tokens;
  reach_last_token = true;
}

-- The first send of a request passes the checks of `update_send`.
update_fresh :
    (env : Env) (rs : Requests) (handle seen new_tokens : ℕ) (has_last : Bool)
    → (rs.sends handle).last_seen ≡ uint32_max
    → (rs.sends handle).has_last ≡ false
    → (rs' : Requests) × (update_send env rs handle seen new_tokens has_last ≡ ok rs')
unfolding update_send assert ◌>>=◌
update_fresh env rs handle seen new_tokens has_last h h' = elim (Bool-cases env.asserts) [
  | inl b ↦
      let same : (seen == seen) ≡ true = (==_iff seen seen).1 refl in
      (
        record rs {
          sends = λ k.
              if k == handle
              then record { last_seen = u32 (seen + new_tokens); has_last = has_last }
              else rs.sends k;
        },
        rw (b, h, h', same) refl,
      )
  | inr b ↦ (rs, rw b refl)
]

-- A round of the loop.
record Grown (env : Env) (m : ReqMeta) (st : StepTasks) (rs : Requests) : Type 0 where
  tasks : StepTasks
  requests : Requests
  handle : ℕ
  runs : add_meta env m (st, rs) ≡ ok (tasks, requests)
  routed : IsRouted tasks.tasks
  ids : (tasks.stepid ≡ st.stepid) × (tasks.substepid ≡ st.substepid)
  law :
      (j : Bytes) (x : ℕ)
      → tasks_for j x tasks.tasks ≡ (
          if same_key j x m.dst_inst m.dst_worker
          then push_back (tasks_for j x st.tasks) (task_of m handle)
          else tasks_for j x st.tasks)

grow :
    (env : Env) (m : ReqMeta) (st : StepTasks) (rs : Requests)
    → 0 < m.new_tokens
    → IsRouted st.tasks
    → Grown env m st rs
unfolding add_meta add_send_task new_request ◌>>=◌
grow env m st rs some_ a =
    let made =
      new_request rs m.dst_inst m.dst_worker m.dst_worker_info m.reqid m.src_block_ids
        m.dst_block_ids in
    let self : (rs.next_handle == rs.next_handle) ≡ true =
      (==_iff rs.next_handle rs.next_handle).1 refl in
    let (rs', e) =
      update_fresh env made.1 rs.next_handle m.seen_tokens m.new_tokens true (rw self refl)
        (rw self refl) in
    let r =
      add_instance_total env m.dst_inst m.dst_worker (task_of m rs.next_handle) st.tasks refl refl
        a in
    record {
      tasks = record st { tasks = r.tasks };
      requests = rs';
      handle = rs.next_handle;
      runs = rw (lt→ltb 0 m.new_tokens some_, e, r.runs) refl;
      routed = r.routed;
      ids = (refl, refl);
      law = r.law;
    }

-- What the loop adds to `st`.
record Collected (env : Env) (ms : List ReqMeta) (st : StepTasks) (rs : Requests) : Type 0 where
  tasks : StepTasks
  requests : Requests
  runs : for_each ms (add_meta env) (st, rs) ≡ ok (tasks, requests)
  routed : IsRouted tasks.tasks
  ids : (tasks.stepid ≡ st.stepid) × (tasks.substepid ≡ st.substepid)
  law :
      (j : Bytes) (x : ℕ)
      → map meta_of (tasks_for j x tasks.tasks)
        ≡ map meta_of (tasks_for j x st.tasks) ++ metas_for j x ms

one_more :
    (b : Bool) (ts : List ReqSendTask) (t : ReqSendTask) (ms : List ReqMeta)
    → map meta_of (if b then push_back ts t else ts) ++ ms
      ≡ map meta_of ts ++ (if b then meta_of t ∷ ms else ms)
one_more true ts t ms = simp (map-append, append_assoc)
one_more false ts t ms = refl

collect :
    (env : Env) (ms : List ReqMeta) (st : StepTasks) (rs : Requests)
    → All (λ m. 0 < m.new_tokens) ms
    → IsRouted st.tasks
    → Collected env ms st rs
unfolding for_each ◌>>=◌
collect env [] st rs p a = record {
  tasks = st;
  requests = rs;
  runs = refl;
  routed = a;
  ids = (refl, refl);
  law = λ j x. sym (append-nil (map meta_of (tasks_for j x st.tasks)));
}
collect env (m ∷ ms) st rs p a =
    let g = grow env m st rs p.0 a in
    let r = collect env ms g.tasks g.requests p.1 g.routed in
    record {
      tasks = r.tasks;
      requests = r.requests;
      runs = rw g.runs r.runs;
      routed = r.routed;
      ids = (r.ids.0 ∙ g.ids.0, r.ids.1 ∙ g.ids.1);
      law = λ j x.
          r.law j x
          ∙ ap (λ (l : List ReqSendTask). map meta_of l ++ metas_for j x ms) (g.law j x)
          ∙ one_more (same_key j x m.dst_inst m.dst_worker) (tasks_for j x st.tasks)
              (task_of m g.handle) (metas_for j x ms);
    }

-- The tasks of a substep, for its metas.
pub record Grouped (stepid substepid : ℕ) (ms : List ReqMeta) (st : StepTasks) : Type 0 where
  pub routed : IsRouted st.tasks
  pub of_step : st.stepid ≡ stepid
  pub of_substep : st.substepid ≡ substepid
  pub in_order : (j : Bytes) (x : ℕ) → map meta_of (tasks_for j x st.tasks) ≡ metas_for j x ms

-- Where each meta has new tokens, `create_step_tasks` returns the numbers of the step and the
-- substep with batches that are routed (none is empty or has a step, and each task is for the
-- batch's destination), and the tasks of each destination are the metas for it, field by field and
-- in order.
pub create_step_tasks-Grouped :
    (env : Env) (stepid substepid : ℕ) (ms : List ReqMeta) (rs : Requests)
    → All (λ m. 0 < m.new_tokens) ms
    → (st : StepTasks) × (rs' : Requests) × (create_step_tasks env stepid substepid ms rs
        ≡ ok (st, rs'))
      × Grouped stepid substepid ms st
unfolding create_step_tasks
create_step_tasks-Grouped env stepid substepid ms rs p =
    let r =
      collect env ms (record { tasks = []; stepid = stepid; substepid = substepid }) rs p tt in
    (
      r.tasks,
      r.requests,
      r.runs,
      record { routed = r.routed; of_step = r.ids.0; of_substep = r.ids.1; in_order = r.law },
    )
