-- ===== src/Client/InFlight.antt =====
-- The jobs of the targets (kvtransfer/src/client.cpp): each batch in flight holds its target.
use llumnix_kv.Base.{
  ℕ, suc, ◌+◌, ◌<◌, ◌≡◌, refl, sym, ap, ◌∙◌, true, false, List, [], ◌∷◌, ◌++◌, append_assoc, some,
  inl, inr, ltb, lt→ltb, ◌==◌, ==_iff, if◌then◌else◌, Bool-cases, All, subst, arith,
}
use llumnix_kv.Env.{Env}
use llumnix_kv.Types.{RequestInfo, ReqSendTask}
use llumnix_kv.Targets.Manager.{Target, TargetMgr, new_target, node}
use llumnix_kv.Targets.Refine.{IsConsistent, Touched}
use llumnix_kv.Targets.Shrink.{Shrunk}
use llumnix_kv.Targets.Held.{All-touch, node-touch, evict-keeps, All-evict}
use llumnix_kv.Client.Submit.{Job}

-- The jobs of a target.
abbrev pub jobs_at : ℕ → List Job → ℕ
jobs_at p [] = 0
jobs_at p (j ∷ js) = let rest = jobs_at p js in if j.place == p then suc rest else rest

abbrev pub ForTarget : Target → List ReqSendTask → Type 0
ForTarget t ts =
    All (λ (r : ReqSendTask). (r.req.dst_inst_id ≡ t.dstid) × (r.req.dst_worker_id ≡ t.dstworkerid))
      ts

-- A job's pointer points to a target that is not freed: the one that its batch is for, on whose
-- thread it runs.
pub record IsHeld (ts : List Target) (j : Job) : Type 0 where
  pub target : Target
  pub points : node j.place ts ≡ some target
  pub same_thread : target.thread_hint ≡ j.hint
  pub addressed : ForTarget target j.batch.tasks

pub record IsTracked (m : TargetMgr) (jobs : List Job) : Type 0 where
  pub consistent : IsConsistent m
  pub counted : All (λ t. t.inflycnt ≡ jobs_at t.place jobs) m.targets
  pub held : All (IsHeld m.targets) jobs

pub jobs_at-append : (p : ℕ) (js ks : List Job) → jobs_at p (js ++ ks) ≡ jobs_at p js + jobs_at p ks
jobs_at-append p [] ks = omega arith
jobs_at-append p (j ∷ js) ks = let ih = jobs_at-append p js ks in ground arith

pub node-All {ℓ} :
    (P : Target → Type ℓ) (q : ℕ) (ts : List Target) {t : Target}
    → node q ts ≡ some t
    → All P ts
    → P t × (t.place ≡ q)
unfolding node
node-All P q [] e a = absurd (cc)
node-All P q (u ∷ us) {t} e a = elim (Bool-cases (u.place == q)) [
  | inl b ↦
      let e' : some u ≡ some t = rw b at e in
      let same : u ≡ t = cc in
      let here : u.place ≡ q = (==_iff u.place q).0 b in
      (subst P same a.0, subst (λ (x : Target). x.place ≡ q) same here)
  | inr b ↦ node-All P q us (rw b at e) a.1
]

-- A property of the jobs that follows from their own.
pub All-jobs {ℓ κ} :
    {P : Job → Type ℓ} {Q : Job → Type κ} (js : List Job)
    → ((j : Job) → P j → Q j)
    → All P js
    → All Q js
All-jobs [] f a = tt
All-jobs (j ∷ js) f a = (f j a.0, All-jobs js f a.1)

-- Each job counts at its own place.
pub self_counted : (before js : List Job) → All (λ j. 0 < jobs_at j.place (before ++ js)) js
self_counted before [] = tt
self_counted before (j ∷ js) = (
  (let e = jobs_at-append j.place before (j ∷ js) in
      let same : (j.place == j.place) ≡ true = (==_iff j.place j.place).1 refl in ground arith),
  subst (λ (l : List Job). All (λ k. 0 < jobs_at k.place l) js) (append_assoc before (j ∷ []) js)
      (self_counted (before ++ j ∷ []) js),
)

pub both {ℓ κ} :
    (P : Job → Type ℓ) (Q : Job → Type κ) (js : List Job)
    → All P js
    → All Q js
    → All (λ j. P j × Q j) js
both P Q [] a b = tt
both P Q (j ∷ js) a b = ((a.0, b.0), both P Q js a.1 b.1)

no_jobs : (p : ℕ) (jobs : List Job) → All (λ j. (p == j.place) ≡ false) jobs → jobs_at p jobs ≡ 0
no_jobs p [] a = refl
no_jobs p (j ∷ js) a = let h = a.0 in let ih = no_jobs p js a.1 in ground arith

-- A held place is not the next address.
held_allocated :
    (m : TargetMgr) (jobs : List Job)
    → IsTracked m jobs
    → All (λ j. (m.fresh == j.place) ≡ false) jobs
held_allocated m jobs v =
    All-jobs jobs
      (λ j h.
        let (less, e) =
          node-All (λ t. t.place < m.fresh) j.place m.targets h.points v.consistent.allocated in
        ground arith)
      v.held

pub touch-IsTracked :
    (env : Env) (m : TargetMgr) (req : RequestInfo) (jobs : List Job)
    → IsTracked m jobs
    → (t : Touched env m req) → IsTracked t.mgr jobs
touch-IsTracked env m req jobs v t =
    let i = req.dst_inst_id in
    let w = req.dst_worker_id in
    let new = new_target m i w req.dst_worker_info in
    let apart = held_allocated m jobs v in
    record {
      consistent = t.consistent;
      counted = subst (All (λ u. u.inflycnt ≡ jobs_at u.place jobs)) (sym t.refines) (
          All-touch (λ u. u.inflycnt ≡ jobs_at u.place jobs) i w new m.targets
            (sym (no_jobs m.fresh jobs apart)) v.counted);
      held =
          All-jobs jobs
            (λ j h. record {
              target = h.0.target;
              points =
                  ap (node j.place) t.refines
                  ∙ node-touch j.place i w new m.targets v.consistent.distinct h.1
                  ∙ h.0.points;
              same_thread = h.0.same_thread;
              addressed = h.0.addressed;
            })
            (both (IsHeld m.targets) (λ j. (m.fresh == j.place) ≡ false) jobs v.held apart);
    }

pub shrink-IsTracked :
    (limit : ℕ) (m m' : TargetMgr) (jobs : List Job)
    → IsTracked m jobs
    → Shrunk limit m m'
    → IsTracked m' jobs
shrink-IsTracked limit m m' jobs v s = record {
  consistent = s.consistent;
  counted =
      subst (All (λ t. t.inflycnt ≡ jobs_at t.place jobs)) (sym s.refines)
        (All-evict (λ t. t.inflycnt ≡ jobs_at t.place jobs) limit m.targets v.counted);
  held =
      All-jobs jobs
        (λ j h.
          let (count, here) =
            node-All (λ t. t.inflycnt ≡ jobs_at t.place jobs) j.place m.targets h.0.points
              v.counted in
          let busy : ltb 0 h.0.target.inflycnt ≡ true =
            lt→ltb 0 h.0.target.inflycnt
              (subst (◌<◌ 0) (sym (count ∙ ap (λ (p : ℕ). jobs_at p jobs) here)) h.1) in
          record {
            target = h.0.target;
            points =
                ap (node j.place) s.refines ∙ evict-keeps limit j.place m.targets h.0.points busy;
            same_thread = h.0.same_thread;
            addressed = h.0.addressed;
          })
        (both (IsHeld m.targets) (λ j. 0 < jobs_at j.place jobs) jobs v.held
          (self_counted [] jobs));
}
