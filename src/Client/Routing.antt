-- ===== src/Client/Routing.antt =====
-- What `add_send_task` and `create_step_tasks` (kvtransfer/src/client.cpp) make of a list of tasks: each
-- destination has its own, in order.
use llumnix_kv.Base.{
  ℕ, ◌<◌, ◌≡◌, refl, sym, ◌∙◌, true, List, [], ◌∷◌, length, length-append, push_back, none, inl,
  inr, ◌==◌, ==_iff, if◌then◌else◌, Bool-cases, All, All-append, ok, ◌>>=◌, assert_ok, arith,
}
use llumnix_kv.Env.{Env}
use llumnix_kv.Types.{Bytes, ReqSendTask}
use llumnix_kv.Targets.Map.{bytes_eq}
use llumnix_kv.Targets.MapLaws.{same_key, bytes_eq_iff}
use llumnix_kv.Client.Tasks.{BatchSendTask, Workers, no_step, add_worker, add_instance}

-- The tasks of a worker, and of a destination.
abbrev pub tasks_in : ℕ → Workers → List ReqSendTask
tasks_in x [] = []
tasks_in x ((v, b) ∷ bs) = if v == x then b.tasks else tasks_in x bs

abbrev pub tasks_for : Bytes → ℕ → List (Bytes × Workers) → List ReqSendTask
tasks_for j x [] = []
tasks_for j x ((i, ws) ∷ rest) = if bytes_eq i j then tasks_in x ws else tasks_for j x rest

-- A batch for the worker `b.0` of instance `i`, not yet given a step.
pub record IsBatch (i : Bytes) (b : ℕ × BatchSendTask) : Type 0 where
  pub fresh : no_step b.1 ≡ true
  pub some_task : 0 < length b.1.tasks
  pub addressed :
      All (λ (t : ReqSendTask). (t.req.dst_inst_id ≡ i) × (t.req.dst_worker_id ≡ b.0)) b.1.tasks

abbrev pub IsRouted : List (Bytes × Workers) → Type 0
IsRouted ts = All (λ (e : Bytes × Workers). (0 < length e.1) × All (IsBatch e.0) e.1) ts

pub record Added (env : Env) (i : Bytes) (w : ℕ) (t : ReqSendTask) (ws : Workers) : Type 0 where
  pub workers : Workers
  pub runs : add_worker env w t ws ≡ ok workers
  pub some_worker : 0 < length workers
  pub batches : All (IsBatch i) workers
  pub law :
      (x : ℕ) → tasks_in x workers ≡ (if x == w then push_back (tasks_in x ws) t else tasks_in x ws)

add_worker_total :
    (env : Env) (i : Bytes) (w : ℕ) (t : ReqSendTask) (ws : Workers)
    → t.req.dst_inst_id ≡ i
    → t.req.dst_worker_id ≡ w
    → All (IsBatch i) ws
    → Added env i w t ws
unfolding add_worker ◌>>=◌
add_worker_total env i w t [] hi hw a = record {
  workers = (w, record { step = none; tasks = t ∷ []; substepid = 0 }) ∷ [];
  runs = refl;
  some_worker = omega arith;
  batches = (record { fresh = refl; some_task = omega arith; addressed = ((hi, hw), tt) }, tt);
  law = λ x. ground arith;
}
add_worker_total env i w t ((v, b) ∷ bs) hi hw a = elim (Bool-cases (v == w)) [
  | inl e ↦
      let v' : v ≡ w = (==_iff v w).0 e in
      record {
        workers = (v, record b { tasks = push_back b.tasks t }) ∷ bs;
        runs = rw (e, assert_ok env.asserts (no_step b) a.0.fresh) refl;
        some_worker = omega arith;
        batches = (
          record {
            fresh = a.0.fresh;
            some_task = omega (arith, length-append b.tasks (t ∷ []));
            addressed =
                All-append
                  (λ (u : ReqSendTask). (u.req.dst_inst_id ≡ i) × (u.req.dst_worker_id ≡ v)) b.tasks
                  (t ∷ []) a.0.addressed ((hi, hw ∙ sym v'), tt);
          },
          a.1,
        );
        law = λ x. ground arith;
      }
  | inr e ↦
      let r = add_worker_total env i w t bs hi hw a.1 in
      record {
        workers = (v, b) ∷ r.workers;
        runs = rw (e, r.runs) refl;
        some_worker = omega arith;
        batches = (a.0, r.batches);
        law = λ x. let q = r.law x in ground arith;
      }
]

pub record Inserted (env : Env) (i : Bytes) (w : ℕ) (t : ReqSendTask) (ts : List (Bytes × Workers))
    : Type 0 where
  pub tasks : List (Bytes × Workers)
  pub runs : add_instance env i w t ts ≡ ok tasks
  pub routed : IsRouted tasks
  pub law :
      (j : Bytes) (x : ℕ)
      → tasks_for j x tasks
        ≡ (if same_key j x i w then push_back (tasks_for j x ts) t else tasks_for j x ts)

pub add_instance_total :
    (env : Env) (i : Bytes) (w : ℕ) (t : ReqSendTask) (ts : List (Bytes × Workers))
    → t.req.dst_inst_id ≡ i
    → t.req.dst_worker_id ≡ w
    → IsRouted ts
    → Inserted env i w t ts
unfolding add_instance ◌>>=◌
add_instance_total env i w t [] hi hw a =
    let r = add_worker_total env i w t [] hi hw tt in
    record {
      tasks = (i, r.workers) ∷ [];
      runs = rw r.runs refl;
      routed = ((r.some_worker, r.batches), tt);
      law = λ j x. let q = r.law x in ground (arith, bytes_eq_iff i j, bytes_eq_iff j i);
    }
add_instance_total env i w t ((k, ws) ∷ ts) hi hw a = elim (Bool-cases (bytes_eq k i)) [
  | inl e ↦
      let k' : k ≡ i = (bytes_eq_iff k i).0 e in
      let r = add_worker_total env k w t ws (hi ∙ sym k') hw a.0.1 in
      record {
        tasks = (k, r.workers) ∷ ts;
        runs = rw (e, r.runs) refl;
        routed = ((r.some_worker, r.batches), a.1);
        law = λ j x. let q = r.law x in ground (arith, bytes_eq_iff k j, bytes_eq_iff j i);
      }
  | inr e ↦
      let r = add_instance_total env i w t ts hi hw a.1 in
      record {
        tasks = (k, ws) ∷ r.tasks;
        runs = rw (e, r.runs) refl;
        routed = (a.0, r.routed);
        law = λ j x.
            let q = r.law j x in
            ground (arith, bytes_eq_iff k j, bytes_eq_iff j i, bytes_eq_iff k i);
      }
]
