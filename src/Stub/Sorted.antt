-- ===== src/Stub/Sorted.antt =====
-- `do_task` (kvtransfer/src/tx_stub.cpp) sorts the batch into the tasks it sends and those that finish.
use llumnix_kv.Base.{
  ◌≡◌, refl, sym, ap, ◌∙◌, Bool, true, false, ◌||◌, List, [], ◌∷◌, ◌++◌, append_assoc, append-nil,
  push_back, ◌==◌, if◌then◌else◌, ok, assert, for_each, >>=-eq-ok,
}
use llumnix_kv.Env.{Env}
use llumnix_kv.Types.{States, ReqSendTask}
use llumnix_kv.Stub.Task.{KvSendStub, state, is_failed, Sorted, sort_task}

-- The two lists, as one reads them off the batch.
abbrev pub skipped : States → ReqSendTask → Bool
skipped states task = task.new_tokens == 0 || is_failed (state states task)

abbrev pub to_send : States → List ReqSendTask → List ReqSendTask
to_send states [] = []
to_send states (t ∷ ts) = if skipped states t then to_send states ts else t ∷ to_send states ts

abbrev pub to_finish : List ReqSendTask → List ReqSendTask
to_finish [] = []
to_finish (t ∷ ts) = if t.reach_last_token then t ∷ to_finish ts else to_finish ts

sort_step :
    (env : Env) (stub : KvSendStub) (states : States) (t : ReqSendTask) (s s' : Sorted)
    → sort_task env stub states t s ≡ ok s'
    → (s'.send_req ≡ (if skipped states t then s.send_req else push_back s.send_req t))
      × (s'.finished_req
          ≡ (if t.reach_last_token then push_back s.finished_req t else s.finished_req))
unfolding sort_task
sort_step env stub states t s s' e =
    let (_, _, e₁) = >>=-eq-ok (assert env.asserts _) _ e in
    let (_, _, e₂) = >>=-eq-ok (assert env.asserts _) _ e₁ in
    let (_, _, e₃) = >>=-eq-ok (assert _ _) _ e₂ in (cc, cc)

pick :
    (b : Bool) (xs ys : List ReqSendTask) (t : ReqSendTask)
    → (if b then xs else push_back xs t) ++ ys ≡ xs ++ (if b then ys else t ∷ ys)
pick true xs ys t = refl
pick false xs ys t = append_assoc xs (t ∷ []) ys

pick' :
    (b : Bool) (xs ys : List ReqSendTask) (t : ReqSendTask)
    → (if b then push_back xs t else xs) ++ ys ≡ xs ++ (if b then t ∷ ys else ys)
pick' false xs ys t = refl
pick' true xs ys t = append_assoc xs (t ∷ []) ys

pub sort_loop :
    (env : Env) (stub : KvSendStub) (states : States) (ts : List ReqSendTask) (s s' : Sorted)
    → for_each ts (sort_task env stub states) s ≡ ok s'
    → (s'.send_req ≡ s.send_req ++ to_send states ts)
      × (s'.finished_req ≡ s.finished_req ++ to_finish ts)
unfolding for_each
sort_loop env stub states [] s s' e =
    let e' : s ≡ s' = cc in
    (
      ap (λ (x : Sorted). x.send_req) (sym e') ∙ sym (append-nil s.send_req),
      ap (λ (x : Sorted). x.finished_req) (sym e') ∙ sym (append-nil s.finished_req),
    )
sort_loop env stub states (t ∷ ts) s s' e =
    let (mid, e₁, e₂) = >>=-eq-ok _ (for_each ts _) e in
    let (a, b) = sort_step env stub states t s mid e₁ in
    let (c, d) = sort_loop env stub states ts mid s' e₂ in
    (
      c
          ∙ ap (λ l. l ++ to_send states ts) a
          ∙ pick (skipped states t) s.send_req (to_send states ts) t,
      d ∙ ap (λ l. l ++ to_finish ts) b ∙ pick' t.reach_last_token s.finished_req (to_finish ts) t,
    )
