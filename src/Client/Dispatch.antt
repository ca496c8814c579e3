-- ===== src/Client/Dispatch.antt =====
-- `do_submit` (kvtransfer/src/client.cpp): each batch of a step becomes one job of its target.
use llumnix_kv.Base.{
  ℕ, ◌+◌, ◌^◌, ◌<◌, ◌≡◌, refl, sym, ap, ◌∙◌, true, false, List, [], ◌∷◌, ◌++◌, map, append_assoc,
  append-nil, length, some, ◌==◌, ==_iff, Bool-cases, inl, inr, All, Result, ok, ◌>>=◌, assert_ok,
  for_each, subst, arith,
}
use mathlib.Core.List.{map-append}
use llumnix_kv.Env.{Env}
use llumnix_kv.Types.{Bytes, ReqSendTask}
use llumnix_kv.Targets.MapLaws.{same_key}
use llumnix_kv.Targets.Manager.{Target, TargetMgr, node}
use llumnix_kv.Targets.Spec.{place_of}
use llumnix_kv.Targets.Nodes.{IsDistinct, place_among, same_key_iff}
use llumnix_kv.Targets.Refine.{create_or_get-refines}
use llumnix_kv.Targets.Shrink.{try_shrink-refines}
use llumnix_kv.Client.Tasks.{BatchSendTask, Workers, StepTasks}
use llumnix_kv.Client.Routing.{IsBatch, IsRouted}
use llumnix_kv.Client.Submit.{
  Job, Submitting, submit_to, submit_front, submit_worker, submit_instance, do_submit,
}
use llumnix_kv.Client.InFlight.{ForTarget, IsTracked, touch-IsTracked, shrink-IsTracked}
use llumnix_kv.Client.Jobs.{submitted, job_of, submit-IsTracked}

-- The batches of a step as they are submitted.
abbrev pub stepped : ℕ → ℕ → BatchSendTask → BatchSendTask
stepped step substepid b = record b { step = some step; substepid = substepid }

abbrev pub worker_batches : ℕ → ℕ → Workers → List BatchSendTask
worker_batches step substepid [] = []
worker_batches step substepid ((w, b) ∷ ws) =
    stepped step substepid b ∷ worker_batches step substepid ws

abbrev pub step_batches : ℕ → ℕ → List (Bytes × Workers) → List BatchSendTask
step_batches step substepid [] = []
step_batches step substepid ((i, ws) ∷ rest) =
    worker_batches step substepid ws ++ step_batches step substepid rest

-- Worker ids whose successor fits in 32 bits.
abbrev pub SmallIds : List (Bytes × Workers) → Type 0
SmallIds ts =
    All (λ (e : Bytes × Workers). All (λ (b : ℕ × BatchSendTask). b.0 + 1 < 2 ^ 32) e.1) ts

-- A place that a destination stands at is the address of its target.
node_at :
    (i : Bytes) (w p : ℕ) (ts : List Target)
    → IsDistinct ts
    → place_of i w ts ≡ some p
    → (t : Target) × (node p ts ≡ some t) × (i ≡ t.dstid) × (w ≡ t.dstworkerid)
unfolding node
node_at i w p [] d h = absurd (cc)
node_at i w p (t ∷ ts) d h = elim (Bool-cases (same_key i w t.dstid t.dstworkerid)) [
  | inl b ↦
      let e : some t.place ≡ some p = rw b at h in
      let here : (t.place == p) ≡ true = (==_iff t.place p).1 (cc) in
      let (ei, ew) = same_key_iff i t.dstid w t.dstworkerid b in (t, rw here refl, ei, ew)
  | inr b ↦
      let h' : place_of i w ts ≡ some p = rw b at h in
      let other : (t.place == p) ≡ false =
        let q = place_among i w p t.place ts h' d.1 in ground arith in
      let (u, e, ei, ew) = node_at i w p ts d.2 h' in (u, rw other e, ei, ew)
]

-- What a run adds to `jobs`, of which `js` are its own.
record Adds (old js : List Job) (r : Result Submitting) (bs : List BatchSendTask) : Type 0 where
  mgr : TargetMgr
  new : List Job
  runs : r ≡ ok (mgr, js ++ new)
  tracked : IsTracked mgr (old ++ (js ++ new))
  batches : map (λ (j : Job). j.batch) new ≡ bs

readdress :
    (i : Bytes) (w : ℕ) (t : Target) (rs : List ReqSendTask)
    → i ≡ t.dstid
    → w ≡ t.dstworkerid
    → All (λ (r : ReqSendTask). (r.req.dst_inst_id ≡ i) × (r.req.dst_worker_id ≡ w)) rs
    → ForTarget t rs
readdress i w t [] ei ew a = tt
readdress i w t (r ∷ rs) ei ew a = ((a.0.0 ∙ ei, a.0.1 ∙ ew), readdress i w t rs ei ew a.1)

front-Adds :
    (env : Env) (old js : List Job) (m : TargetMgr) (i : Bytes) (w : ℕ) (b : BatchSendTask)
    (t : ReqSendTask) (ts : List ReqSendTask)
    → IsTracked m (old ++ js)
    → b.tasks ≡ t ∷ ts
    → w + 1 < 2 ^ 32
    → All (λ (r : ReqSendTask). (r.req.dst_inst_id ≡ i) × (r.req.dst_worker_id ≡ w)) (t ∷ ts)
    → Adds old js (submit_front env b (t ∷ ts) (m, js)) (b ∷ [])
unfolding submit_front submit_to ◌>>=◌
front-Adds env old js m i w b t ts v e small a =
    let touched =
      create_or_get-refines env m t.req v.consistent
        (subst (λ (n : ℕ). n + 1 < 2 ^ 32) (sym a.0.1) small) in
    let tracked = touch-IsTracked env m t.req (old ++ js) v touched in
    let (u, points, ei, ew) =
      node_at t.req.dst_inst_id t.req.dst_worker_id touched.place touched.mgr.targets
        touched.consistent.distinct touched.found in
    let addressed : ForTarget u b.tasks =
      subst (ForTarget u) (sym e) (readdress i w u (t ∷ ts) (sym a.0.0 ∙ ei) (sym a.0.1 ∙ ew) a) in
    record {
      mgr = submitted touched.place b touched.mgr u;
      new = job_of touched.place b touched.mgr u ∷ [];
      runs = rw (touched.runs, points) refl;
      tracked =
          subst (IsTracked (submitted touched.place b touched.mgr u))
            (append_assoc old js (job_of touched.place b touched.mgr u ∷ []))
            (submit-IsTracked touched.place b touched.mgr (old ++ js) u tracked points addressed);
      batches = refl;
    }

worker-Adds :
    (env : Env) (step substepid : ℕ) (old js : List Job) (m : TargetMgr) (i : Bytes) (w : ℕ)
    (b : BatchSendTask) (tasks : List ReqSendTask)
    → b.tasks ≡ tasks
    → IsTracked m (old ++ js)
    → w + 1 < 2 ^ 32
    → IsBatch i (w, b)
    → Adds old js (submit_worker env step substepid (w, b) (m, js)) (stepped step substepid b ∷ [])
unfolding submit_worker ◌>>=◌
worker-Adds env step substepid old js m i w b [] e v small p =
    absurd (let n = ap length e in omega (arith, n, p.some_task))
worker-Adds env step substepid old js m i w b (t ∷ ts) e v small p =
    let a =
      subst (All (λ (r : ReqSendTask). (r.req.dst_inst_id ≡ i) × (r.req.dst_worker_id ≡ w))) e
        p.addressed in
    let r =
      front-Adds env old js m i w
        (record { step = some step; tasks = t ∷ ts; substepid = substepid }) t ts v refl small a in
    record {
      mgr = r.mgr;
      new = r.new;
      runs = rw (assert_ok env.asserts _ p.fresh, e, assert_ok env.asserts true refl) r.runs;
      tracked = r.tracked;
      batches = r.batches ∙ rw e refl;
    }

-- One run after another.
then-Adds :
    (old js : List Job) (r : Result Submitting) (k : Submitting → Result Submitting)
    (bs cs : List BatchSendTask)
    → (x : Adds old js r bs) → Adds old (js ++ x.new) (k (x.mgr, js ++ x.new)) cs
    → Adds old js (r >>= k) (bs ++ cs)
unfolding ◌>>=◌
then-Adds old js r k bs cs x y = record {
  mgr = y.mgr;
  new = x.new ++ y.new;
  runs = rw x.runs (y.runs ∙ ap (λ (l : List Job). ok (y.mgr, l)) (append_assoc js x.new y.new));
  tracked =
      subst (λ (l : List Job). IsTracked y.mgr (old ++ l)) (append_assoc js x.new y.new) y.tracked;
  batches = map-append (λ (j : Job). j.batch) x.new y.new ∙ rw (x.batches, y.batches) refl;
}

-- A run that adds nothing.
none-Adds :
    (old js : List Job) (m : TargetMgr) → IsTracked m (old ++ js) → Adds old js (ok (m, js)) []
none-Adds old js m v = record {
  mgr = m;
  new = [];
  runs = ap (λ (l : List Job). ok (m, l)) (sym (append-nil js));
  tracked = subst (λ (l : List Job). IsTracked m (old ++ l)) (sym (append-nil js)) v;
  batches = refl;
}

workers_add :
    (env : Env) (step substepid : ℕ) (old js : List Job) (m : TargetMgr) (i : Bytes) (ws : Workers)
    → IsTracked m (old ++ js)
    → All (λ (b : ℕ × BatchSendTask). b.0 + 1 < 2 ^ 32) ws
    → All (IsBatch i) ws
    → Adds old js
        (for_each ws (submit_worker env step substepid) (m, js))
        (worker_batches step substepid ws)
unfolding for_each
workers_add env step substepid old js m i [] v small p = none-Adds old js m v
workers_add env step substepid old js m i ((w, b) ∷ ws) v small p =
    let x = worker-Adds env step substepid old js m i w b b.tasks refl v small.0 p.0 in
    then-Adds old js (submit_worker env step substepid (w, b) (m, js))
      (λ s. for_each ws (submit_worker env step substepid) s) (stepped step substepid b ∷ [])
      (worker_batches step substepid ws) x
      (workers_add env step substepid old (js ++ x.new) x.mgr i ws x.tracked small.1 p.1)

instance-Adds :
    (env : Env) (step substepid : ℕ) (old js : List Job) (m : TargetMgr) (i : Bytes) (ws : Workers)
    → IsTracked m (old ++ js)
    → All (λ (b : ℕ × BatchSendTask). b.0 + 1 < 2 ^ 32) ws
    → 0 < length ws
    → All (IsBatch i) ws
    → Adds old js
        (submit_instance env step substepid (i, ws) (m, js))
        (worker_batches step substepid ws)
unfolding submit_instance ◌>>=◌
instance-Adds env step substepid old js m i [] v small some_ p = absurd (omega (arith, some_))
instance-Adds env step substepid old js m i (b ∷ ws) v small some_ p =
    let x = workers_add env step substepid old js m i (b ∷ ws) v small p in
    record {
      mgr = x.mgr;
      new = x.new;
      runs = rw (assert_ok env.asserts true refl) x.runs;
      tracked = x.tracked;
      batches = x.batches;
    }

instances_add :
    (env : Env) (step substepid : ℕ) (old js : List Job) (m : TargetMgr)
    (ts : List (Bytes × Workers))
    → IsTracked m (old ++ js)
    → SmallIds ts
    → IsRouted ts
    → Adds old js
        (for_each ts (submit_instance env step substepid) (m, js))
        (step_batches step substepid ts)
unfolding for_each
instances_add env step substepid old js m [] v small p = none-Adds old js m v
instances_add env step substepid old js m ((i, ws) ∷ ts) v small p =
    let x = instance-Adds env step substepid old js m i ws v small.0 p.0.0 p.0.1 in
    then-Adds old js (submit_instance env step substepid (i, ws) (m, js))
      (λ s. for_each ts (submit_instance env step substepid) s) (worker_batches step substepid ws)
      (step_batches step substepid ts) x
      (instances_add env step substepid old (js ++ x.new) x.mgr ts x.tracked small.1 p.1)

-- A run of `do_submit`.
pub record Dispatched (env : Env) (step : ℕ) (st : StepTasks) (m : TargetMgr) (old : List Job)
    : Type 0 where
  pub mgr : TargetMgr
  pub new : List Job
  pub runs : do_submit env step st m ≡ ok (mgr, new)
  pub tracked : IsTracked mgr (old ++ new)
  pub batches : map (λ (j : Job). j.batch) new ≡ step_batches step st.substepid st.tasks

-- Where the jobs in flight are tracked, the batches of a step are routed and the worker ids are
-- small, `do_submit` returns; it submits one job for each batch, in the order of the step, with the
-- step and the number of the substep set, and all jobs, old and new, are tracked.
pub do_submit-Dispatched :
    (env : Env) (step : ℕ) (st : StepTasks) (m : TargetMgr) (old : List Job)
    → IsTracked m old
    → SmallIds st.tasks
    → IsRouted st.tasks
    → Dispatched env step st m old
unfolding do_submit ◌>>=◌
do_submit-Dispatched env step st m old v small p =
    let x =
      instances_add env step st.substepid old [] m st.tasks
        (subst (IsTracked m) (sym (append-nil old)) v) small p in
    let (m', e, s) = try_shrink-refines env env.txstub_cap x.mgr x.tracked.consistent in
    record {
      mgr = m';
      new = x.new;
      runs = rw (x.runs, e) refl;
      tracked = shrink-IsTracked env.txstub_cap x.mgr m' (old ++ x.new) x.tracked s;
      batches = x.batches;
    }
