-- ===== src/Steps/Flush.antt =====
-- After `layer_ready_all` (kvtransfer/src/step.cpp) the waiting thread ends and every sender goes on.
use llumnix_kv.Base.{
  ℕ, suc, ◌+◌, ◌-◌, ◌*◌, ◌^◌, ◌≤◌, ◌<◌, ◌≡◌, refl, ◌∙◌, true, false, lt→ltb, List, [], ◌∷◌, arith,
}
use llumnix_kv.Steps.Threads.{Pc, Guarded, new_step, Action, turn, act, run, layer_passes}
use llumnix_kv.Steps.Order.{At, IsOrdered, run-IsOrdered, new_step-IsOrdered, act-IsOrdered}

-- The turns that `wait_layers` takes at most, where no record is missing.
abbrev pub turns_left : ℕ → Pc → ℕ
turns_left n Pc.start = n * 3 + 1
turns_left n (Pc.at_record i) = (n - i) * 3
turns_left n (Pc.at_barrier i) = (n - i) * 3 - 1
turns_left n (Pc.at_notify i) = (n - i) * 3 - 2
turns_left n Pc.done = 0
turns_left n Pc.aborted = 0

-- The turns of the waiting thread in a schedule.
abbrev pub turns : List Action → ℕ
turns [] = 0
turns (Action.wait_layer ∷ as_) = suc (turns as_)
turns (_ ∷ as_) = turns as_

-- Flushed, with no record missing.
pub record Unblocked (n : ℕ) (s : Guarded) : Type 0 where
  pub ordered : IsOrdered n s
  pub flushed : s.flushed ≡ true
  pub recorded : n ≤ s.record_ready

turn_advances :
    (n : ℕ) (pc : Pc) (s : Guarded)
    → n < 2 ^ 32
    → At n pc s
    → s.pc ≡ pc
    → n ≤ s.record_ready
    → turns_left n (turn n pc s).pc ≤ turns_left n pc - 1
unfolding turn
turn_advances n Pc.start s small a e r = ground arith
turn_advances n (Pc.at_record i) s small a e r = ground arith
turn_advances n (Pc.at_barrier i) s small a e r = ground arith
turn_advances n (Pc.at_notify i) s small a e r = ground arith
turn_advances n Pc.done s small a e r = ground arith
turn_advances n Pc.aborted s small a e r = absurd a

turn_keeps :
    (n : ℕ) (pc : Pc) (s : Guarded)
    → ((turn n pc s).flushed ≡ s.flushed) × ((turn n pc s).record_ready ≡ s.record_ready)
unfolding turn
turn_keeps n Pc.start s = (refl, refl)
turn_keeps n (Pc.at_record i) s = ground arith
turn_keeps n (Pc.at_barrier i) s = (refl, refl)
turn_keeps n (Pc.at_notify i) s = (refl, refl)
turn_keeps n Pc.done s = (refl, refl)
turn_keeps n Pc.aborted s = (refl, refl)

act-Unblocked :
    (n : ℕ) (a : Action) (s : Guarded) → n < 2 ^ 32 → Unblocked n s → Unblocked n (act n a s)
unfolding act
act-Unblocked n Action.wait_layer s small u =
    let k = turn_keeps n s.pc s in
    record {
      ordered = act-IsOrdered n Action.wait_layer s small u.ordered;
      flushed = k.0 ∙ u.flushed;
      recorded = omega (arith, k.1, u.recorded);
    }
act-Unblocked n Action.record_one s small u =
    let k = u.flushed in
    record {
      ordered = act-IsOrdered n Action.record_one s small u.ordered;
      flushed = rw k refl;
      recorded = rw k u.recorded;
    }
act-Unblocked n Action.flush s small u =
    let k = u.flushed in
    record {
      ordered = act-IsOrdered n Action.flush s small u.ordered;
      flushed = rw k refl;
      recorded = rw k u.recorded;
    }
act-Unblocked n Action.freeze s small u = record {
  ordered = act-IsOrdered n Action.freeze s small u.ordered;
  flushed = u.flushed;
  recorded = u.recorded;
}

-- Each turn takes one of the turns left, and no other action adds any.
act_advances :
    (n : ℕ) (a : Action) (as_ : List Action) (s : Guarded)
    → n < 2 ^ 32
    → Unblocked n s
    → turns_left n s.pc ≤ turns (a ∷ as_)
    → turns_left n (act n a s).pc ≤ turns as_
unfolding act
act_advances n Action.wait_layer as_ s small u h =
    omega (arith, turn_advances n s.pc s small u.ordered.at refl u.recorded)
act_advances n Action.record_one as_ s small u h = rw u.flushed h
act_advances n Action.flush as_ s small u h = rw u.flushed h
act_advances n Action.freeze as_ s small u h = h

run_ends :
    (n : ℕ) (as_ : List Action) (s : Guarded)
    → n < 2 ^ 32
    → Unblocked n s
    → turns_left n s.pc ≤ turns as_
    → turns_left n (run n as_ s).pc ≤ 0
unfolding run
run_ends n [] s small u h = h
run_ends n (a ∷ as_) s small u h =
    run_ends n as_ (act n a s) small (act-Unblocked n a s small u)
      (act_advances n a as_ s small u h)

run-Unblocked :
    (n : ℕ) (as_ : List Action) (s : Guarded)
    → n < 2 ^ 32
    → Unblocked n s
    → Unblocked n (run n as_ s)
unfolding run
run-Unblocked n [] s small u = u
run-Unblocked n (a ∷ as_) s small u =
    run-Unblocked n as_ (act n a s) small (act-Unblocked n a s small u)

no_turn_left : (n : ℕ) (pc : Pc) (s : Guarded) → At n pc s → turns_left n pc ≤ 0 → s.data_ready ≡ n
no_turn_left n Pc.start s a h = absurd (omega arith)
no_turn_left n (Pc.at_record i) s a h = absurd (omega (arith, a.0))
no_turn_left n (Pc.at_barrier i) s a h = absurd (omega (arith, a.0))
no_turn_left n (Pc.at_notify i) s a h = absurd (omega (arith, a.0))
no_turn_left n Pc.done s a h = a
no_turn_left n Pc.aborted s a h = absurd a

few_turns : (n : ℕ) (pc : Pc) → turns_left n pc ≤ n * 3 + 1
few_turns n Pc.start = omega arith
few_turns n (Pc.at_record i) = omega arith
few_turns n (Pc.at_barrier i) = omega arith
few_turns n (Pc.at_notify i) = omega arith
few_turns n Pc.done = omega arith
few_turns n Pc.aborted = omega arith

flush-Unblocked :
    (n : ℕ) (s : Guarded)
    → n < 2 ^ 32
    → s.flushed ≡ false
    → IsOrdered n s
    → Unblocked n (act n Action.flush s)
unfolding act
flush-Unblocked n s small h v =
    let o : IsOrdered n (act n Action.flush s) = act-IsOrdered n Action.flush s small v in
    record { ordered = o; flushed = rw h refl; recorded = ground arith }

-- For fewer than 2^32 layers: after the first flush of a step, once the waiting thread has had
-- three turns for each layer and one more, whatever the other threads do in between, every sender
-- passes its layer.
pub flush-ready :
    (n : ℕ) (before after : List Action)
    → n < 2 ^ 32
    → (run n before new_step).flushed ≡ false
    → n * 3 + 1 ≤ turns after
    → (layer : ℕ) → layer < n
    → layer_passes (run n after (act n Action.flush (run n before new_step))) layer ≡ true
flush-ready n before after small open_ fair layer h =
    let s = act n Action.flush (run n before new_step) in
    let u : Unblocked n s =
      flush-Unblocked n (run n before new_step) small open_
        (run-IsOrdered n before new_step small (new_step-IsOrdered n)) in
    let t = run n after s in
    let end = run_ends n after s small u (omega (arith, few_turns n s.pc)) in
    let all : t.data_ready ≡ n =
      no_turn_left n t.pc t (run-Unblocked n after s small u).ordered.at end in
    lt→ltb layer t.data_ready (omega arith)
