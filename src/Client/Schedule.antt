-- ===== src/Client/Schedule.antt =====
-- Steps that are submitted and jobs that end, in any order (kvtransfer/src/client.cpp).
use llumnix_kv.Base.{
  ℕ, ◌≡◌, refl, sym, ap, ◌∙◌, subst, append_assoc, none, List, [], ◌∷◌, ◌++◌, ok, All,
}
use llumnix_kv.Env.{Env}
use llumnix_kv.Types.{Bytes}
use llumnix_kv.Targets.Map.{peek, find, slot}
use llumnix_kv.Targets.Manager.{TargetMgr}
use llumnix_kv.Client.Tasks.{StepTasks}
use llumnix_kv.Client.Routing.{IsRouted}
use llumnix_kv.Client.Submit.{Job, Submitting, do_submit, finish_job}
use llumnix_kv.Client.InFlight.{IsHeld, IsTracked}
use llumnix_kv.Client.Jobs.{ended, All-others, finish-IsTracked}
use llumnix_kv.Client.Dispatch.{SmallIds, do_submit-Dispatched}

-- The manager and the jobs in flight.
pub record Flight : Type 0 where
  pub mgr : TargetMgr
  pub jobs : List Job

abbrev pub no_flight : Flight
no_flight = record {
  mgr = record { targets = []; target_map = []; thread_hint = 0; fresh = 0 };
  jobs = [];
}

pub data Move (env : Env) (f g : Flight) : Type 0 where
  submit :
      (step : ℕ) (st : StepTasks) (m : TargetMgr) (new : List Job)
      → SmallIds st.tasks
      → IsRouted st.tasks
      → do_submit env step st f.mgr ≡ ok (m, new)
      → g ≡ record { mgr = m; jobs = f.jobs ++ new }
      → Move env f g
  finish :
      (before : List Job) (j : Job) (after : List Job) (m : TargetMgr)
      → f.jobs ≡ before ++ j ∷ after
      → finish_job env f.mgr j ≡ ok m
      → g ≡ record { mgr = m; jobs = before ++ after }
      → Move env f g

pub data Reach (env : Env) : Flight → Type 0 where
  start : Reach env no_flight
  later : {f g : Flight} → Reach env f → Move env f g → Reach env g

Move-IsTracked :
    (env : Env) (f g : Flight) → IsTracked f.mgr f.jobs → Move env f g → IsTracked g.mgr g.jobs
Move-IsTracked env f g v (submit step st m new small p e same) =
    let d = do_submit-Dispatched env step st f.mgr f.jobs v small p in
    let e' : ok (d.mgr, d.new) ≡ ok (m, new) = sym d.runs ∙ e in
    let pair : ◌≡◌ {A = Submitting} (d.mgr, d.new) (m, new) = cc in
    let at : record { mgr = d.mgr; jobs = f.jobs ++ d.new } ≡ g =
      ap (λ (s : Submitting). record { mgr = s.0; jobs = f.jobs ++ s.1 }) pair ∙ sym same in
    subst (λ (h : Flight). IsTracked h.mgr h.jobs) at d.tracked
Move-IsTracked env f g v (finish before j after m e run same) =
    let (ran, tracked) = finish-IsTracked env f.mgr before j after (subst (IsTracked f.mgr) e v) in
    let e' : ok (ended f.mgr j) ≡ ok m = sym ran ∙ run in
    let m' : ended f.mgr j ≡ m = cc in
    let at : record { mgr = ended f.mgr j; jobs = before ++ after } ≡ g =
      ap (λ (x : TargetMgr). record { mgr = x; jobs = before ++ after }) m' ∙ sym same in
    subst (λ (h : Flight). IsTracked h.mgr h.jobs) at tracked

empty : (i : Bytes) (w : ℕ) → peek [] i w ≡ none
unfolding peek find slot
empty i w = refl

pub Reach-IsTracked : {env : Env} {f : Flight} → Reach env f → IsTracked f.mgr f.jobs
Reach-IsTracked start = record {
  consistent = record { mapped = λ i w. empty i w; distinct = tt; allocated = tt };
  counted = tt;
  held = tt;
}
Reach-IsTracked {env} (later {f} {g} r mv) = Move-IsTracked env f g (Reach-IsTracked r) mv

splits :
    (jobs before : List Job) (P : Job → Type 0)
    → ((b : List Job) (j : Job) (a : List Job) → before ++ jobs ≡ b ++ j ∷ a → P j)
    → All P jobs
splits [] before P f = tt
splits (j ∷ js) before P f = (
  f before j js refl,
  splits js (before ++ j ∷ []) P (λ b k a e. f b k a (sym (append_assoc before (j ∷ []) js) ∙ e)),
)

-- A job in flight holds its target, and can end.
abbrev pub IsSafe : Env → TargetMgr → Job → Type 0
IsSafe env m j = IsHeld m.targets j × ((m' : TargetMgr) × (finish_job env m j ≡ ok m'))

-- However submissions of steps (whose batches are routed and whose worker ids are small) and ends
-- of jobs follow each other, each job in flight points to a target that is still in the list, for
-- whose destination each task of its batch is and on whose thread it runs, and the end of that job
-- returns: the target has not been freed, and its counter is not 0.
pub Reach-IsSafe : {env : Env} {f : Flight} → Reach env f → All (IsSafe env f.mgr) f.jobs
Reach-IsSafe {env} {f} r =
    let v = Reach-IsTracked r in
    splits f.jobs [] (IsSafe env f.mgr) (λ b j a e.
      let v' : IsTracked f.mgr (b ++ j ∷ a) = subst (IsTracked f.mgr) e v in
      (
        (All-others (IsHeld f.mgr.targets) b j a v'.held).0,
        (ended f.mgr j, (finish-IsTracked env f.mgr b j a v').0),
      ))
