-- ===== src/Client/Jobs.antt =====
-- A batch that is submitted and a job that ends (kvtransfer/src/client.cpp) keep the account of the jobs
-- in flight.
use llumnix_kv.Base.{
  ℕ, ◌+◌, ◌-◌, ◌<◌, ◌≡◌, refl, sym, ap, ◌∙◌, true, false, List, [], ◌∷◌, ◌++◌, push_back, some, inl,
  inr, ltb, ◌==◌, ==_iff, if◌then◌else◌, Bool-cases, All, All-append, ok, ◌>>=◌, assert_ok, subst,
  arith,
}
use llumnix_kv.Env.{Env}
use llumnix_kv.Types.{ReqSendTask}
use llumnix_kv.Targets.Manager.{Target, TargetMgr, node, modify}
use llumnix_kv.Targets.Held.{node-modify, All-modify}
use llumnix_kv.Targets.Writes.{write-IsConsistent}
use llumnix_kv.Client.Tasks.{BatchSendTask}
use llumnix_kv.Client.Submit.{Job, enlist, finish_target, finish_job}
use llumnix_kv.Client.InFlight.{
  jobs_at, ForTarget, IsHeld, IsTracked, jobs_at-append, node-All, All-jobs, self_counted, both,
}

abbrev pub next_hint : TargetMgr → Target → ℕ
next_hint m t = if t.inflycnt == 0 then m.thread_hint + 1 else m.thread_hint

abbrev pub hint_for : TargetMgr → Target → ℕ
hint_for m t = if t.inflycnt == 0 then next_hint m t else t.thread_hint

abbrev pub submitted : ℕ → BatchSendTask → TargetMgr → Target → TargetMgr
submitted p b m t = record m {
  targets = modify p (enlist (hint_for m t)) m.targets;
  thread_hint = next_hint m t;
}

abbrev pub job_of : ℕ → BatchSendTask → TargetMgr → Target → Job
job_of p b m t = record { place = p; hint = hint_for m t; batch = b }

-- A job's target after a write that keeps the thread of a busy one.
IsHeld-after :
    (p : ℕ) (f : Target → Target) (ts : List Target) (j : Job)
    → ((t : Target) → (f t).place ≡ t.place)
    → ((t : Target) → (f t).dstid ≡ t.dstid)
    → ((t : Target) → (f t).dstworkerid ≡ t.dstworkerid)
    → (h : IsHeld ts j) → ((j.place == p) ≡ true → (f h.target).thread_hint ≡ h.target.thread_hint)
    → IsHeld (modify p f ts) j
IsHeld-after p f ts j hp hi hw h same = elim (Bool-cases (j.place == p)) [
  | inl b ↦ record {
    target = f h.target;
    points = node-modify j.place p f ts hp ∙ rw (b, h.points) refl;
    same_thread = same b ∙ h.same_thread;
    addressed = readdress h.target j.batch.tasks (hi h.target) (hw h.target) h.addressed;
  }
  | inr b ↦ record {
    target = h.target;
    points = node-modify j.place p f ts hp ∙ rw (b, h.points) refl;
    same_thread = h.same_thread;
    addressed = h.addressed;
  }
]
  where
    readdress :
        (t : Target) (rs : List ReqSendTask)
        → (f t).dstid ≡ t.dstid
        → (f t).dstworkerid ≡ t.dstworkerid
        → ForTarget t rs
        → ForTarget (f t) rs
    readdress t [] hi hw a = tt
    readdress t (r ∷ rs) hi hw a = ((a.0.0 ∙ sym hi, a.0.1 ∙ sym hw), readdress t rs hi hw a.1)

-- A target with a job in flight keeps its thread.
busy_thread :
    (m : TargetMgr) (jobs : List Job) (t : Target) (j : Job) (p : ℕ)
    → IsTracked m jobs
    → node p m.targets ≡ some t
    → (h : IsHeld m.targets j) → 0 < jobs_at j.place jobs
    → (j.place == p) ≡ true
    → hint_for m t ≡ h.target.thread_hint
busy_thread m jobs t j p v e h some_ b =
    let at : j.place ≡ p = (==_iff j.place p).0 b in
    let same' : some h.target ≡ some t = sym h.points ∙ ap (λ (q : ℕ). node q m.targets) at ∙ e in
    let same : h.target ≡ t = cc in
    let (count, here) =
      node-All (λ u. u.inflycnt ≡ jobs_at u.place jobs) j.place m.targets h.points v.counted in
    let busy : 0 < h.target.inflycnt =
      subst (◌<◌ 0) (sym (count ∙ ap (λ (q : ℕ). jobs_at q jobs) here)) some_ in
    subst (λ (x : Target). hint_for m x ≡ h.target.thread_hint) same
      (let idle : (h.target.inflycnt == 0) ≡ false = ground arith in rw idle refl)

pub submit-IsTracked :
    (p : ℕ) (b : BatchSendTask) (m : TargetMgr) (jobs : List Job) (t : Target)
    → IsTracked m jobs
    → node p m.targets ≡ some t
    → ForTarget t b.tasks
    → IsTracked (submitted p b m t) (push_back jobs (job_of p b m t))
submit-IsTracked p b m jobs t v e a =
    let f = enlist (hint_for m t) in
    let j = job_of p b m t in
    let self : (p == p) ≡ true = (==_iff p p).1 refl in
    record {
      consistent = write-IsConsistent p f m (submitted p b m t) v.consistent (record {
        targets = refl;
        map = refl;
        addresses = refl;
        place = λ u. refl;
        instance_ = λ u. refl;
        worker = λ u. refl;
      });
      counted =
          All-modify (λ u. u.inflycnt ≡ jobs_at u.place jobs)
            (λ u. u.inflycnt ≡ jobs_at u.place (push_back jobs j)) p f m.targets
            (λ u c h. let n = jobs_at-append u.place jobs (j ∷ []) in ground arith)
            (λ u c h. let n = jobs_at-append u.place jobs (j ∷ []) in ground arith) v.counted;
      held =
          All-append (IsHeld (modify p f m.targets)) jobs (j ∷ [])
            (All-jobs jobs
              (λ k h.
                IsHeld-after p f m.targets k (λ u. refl) (λ u. refl) (λ u. refl) h.0
                  (busy_thread m jobs t k p v e h.0 h.1))
              (both (IsHeld m.targets) (λ k. 0 < jobs_at k.place jobs) jobs v.held
                (self_counted [] jobs)))
            (
              record {
                target = f t;
                points = node-modify p p f m.targets (λ u. refl) ∙ rw (self, e) refl;
                same_thread = refl;
                addressed = a;
              },
              tt,
            );
    }

-- A job that ends.
abbrev pub ended : TargetMgr → Job → TargetMgr
ended m j = record m {
  targets = modify j.place (λ u. record u { inflycnt = u.inflycnt - 1 }) m.targets;
}

-- The jobs but one.
pub All-others {ℓ} :
    (P : Job → Type ℓ) (before : List Job) (j : Job) (after : List Job)
    → All P (before ++ j ∷ after)
    → P j × All P (before ++ after)
All-others P [] j after a = a
All-others P (k ∷ before) j after a =
    let (here, rest) = All-others P before j after a.1 in (here, (a.0, rest))

jobs_at-others :
    (p : ℕ) (before : List Job) (j : Job) (after : List Job)
    → jobs_at p (before ++ j ∷ after) ≡ jobs_at p (before ++ after) + jobs_at p (j ∷ [])
jobs_at-others p before j after =
    let x = jobs_at-append p before (j ∷ after) in
    let y = jobs_at-append p before after in
    let z = jobs_at-append p (j ∷ []) after in omega (arith, x, y, z)

pub finish-IsTracked :
    (env : Env) (m : TargetMgr) (before : List Job) (j : Job) (after : List Job)
    → IsTracked m (before ++ j ∷ after)
    → (finish_job env m j ≡ ok (ended m j)) × IsTracked (ended m j) (before ++ after)
unfolding finish_job finish_target ◌>>=◌
finish-IsTracked env m before j after v =
    let f : Target → Target = λ u. record u { inflycnt = u.inflycnt - 1 } in
    let (mine, others) = All-others (IsHeld m.targets) before j after v.held in
    let (count, here) =
      node-All (λ u. u.inflycnt ≡ jobs_at u.place (before ++ j ∷ after)) j.place m.targets
        mine.points v.counted in
    let self : (j.place == j.place) ≡ true = (==_iff j.place j.place).1 refl in
    let n = jobs_at-others j.place before j after in
    let total : mine.target.inflycnt ≡ jobs_at j.place (before ++ j ∷ after) =
      count ∙ ap (λ (q : ℕ). jobs_at q (before ++ j ∷ after)) here in
    let busy : ltb 0 mine.target.inflycnt ≡ true = ground arith in
    (
      rw (mine.points, assert_ok env.asserts _ busy) refl,
      record {
        consistent = write-IsConsistent j.place f m (ended m j) v.consistent (record {
          targets = refl;
          map = refl;
          addresses = refl;
          place = λ u. refl;
          instance_ = λ u. refl;
          worker = λ u. refl;
        });
        counted =
            All-modify (λ u. u.inflycnt ≡ jobs_at u.place (before ++ j ∷ after))
              (λ u. u.inflycnt ≡ jobs_at u.place (before ++ after)) j.place f m.targets
              (λ u c h. let n = jobs_at-others u.place before j after in ground arith)
              (λ u c h. let n = jobs_at-others u.place before j after in ground arith) v.counted;
        held =
            All-jobs (before ++ after)
              (λ k h.
                IsHeld-after j.place f m.targets k (λ u. refl) (λ u. refl) (λ u. refl) h
                  (λ b. refl))
              others;
      },
    )
