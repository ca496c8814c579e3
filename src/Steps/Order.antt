-- ===== src/Steps/Order.antt =====
-- The order of events in a guarded step (kvtransfer/src/step.cpp): no sender passes a layer before the
-- barrier of that layer.
use llumnix_kv.Base.{
  ℕ, ◌+◌, ◌^◌, ◌≤◌, ◌<◌, ◌≡◌, ◌≢◌, subst, refl, ◌⊎◌, inl, inr, Bool, true, false, List, [], ◌∷◌,
  ltb→lt, arith,
}
use llumnix_kv.Steps.Threads.{Pc, Guarded, new_step, Action, turn, act, run, layer_passes}

-- The layers set ready, where the waiting thread has set `k`.
abbrev pub Ready : ℕ → ℕ → Guarded → Type 0
Ready n k s = (s.data_ready ≡ k) ⊎ ((s.data_ready ≡ n) × (s.frozen ≡ true))

-- The event of layer `i` has been recorded, or stands for it.
abbrev pub Recorded : ℕ → Guarded → Type 0
Recorded i s = (i < s.records) ⊎ (s.flushed ≡ true)

abbrev pub At : ℕ → Pc → Guarded → Type 0
At n Pc.start s = (s.waited ≡ 0) × Ready n 0 s
At n Pc.done s = s.data_ready ≡ n
At n Pc.aborted s = ⊥
At n (Pc.at_record i) s = (i < n) × (s.waited ≡ i) × Ready n i s
At n (Pc.at_barrier i) s = (i < n) × (s.waited ≡ i) × Ready n i s × Recorded i s
At n (Pc.at_notify i) s = (i < n) × (s.waited ≡ i + 1) × Ready n i s × Recorded i s

pub record IsOrdered (n : ℕ) (s : Guarded) : Type 0 where
  pub at : At n s.pc s
  pub counted : s.flushed ≡ false → s.record_ready ≤ s.records
  pub frozen_all : s.frozen ≡ true → s.data_ready ≡ n
  pub waited_first : s.frozen ≡ false → s.data_ready ≤ s.waited
  pub recorded_first : (s.waited ≤ s.records) ⊎ (s.flushed ≡ true)

turn-IsOrdered :
    (n : ℕ) (pc : Pc) (s : Guarded)
    → n < 2 ^ 32
    → s.pc ≡ pc
    → At n pc s
    → IsOrdered n s
    → IsOrdered n (turn n pc s)
unfolding turn
turn-IsOrdered n Pc.start s small e a v = ground arith
turn-IsOrdered n (Pc.at_record i) s small e a v = ground arith
turn-IsOrdered n (Pc.at_barrier i) s small e a v = ground arith
turn-IsOrdered n (Pc.at_notify i) s small e a v = ground arith
turn-IsOrdered n Pc.done s small e a v = v
turn-IsOrdered n Pc.aborted s small e a v = absurd a

-- What other threads do while the waiting thread stands at `pc`.
record_one-IsOrdered :
    (n : ℕ) (pc : Pc) (s : Guarded)
    → s.pc ≡ pc
    → At n pc s
    → IsOrdered n s
    → IsOrdered n (act n Action.record_one s)
unfolding act
record_one-IsOrdered n Pc.start s e a v = ground arith
record_one-IsOrdered n (Pc.at_record i) s e a v = ground arith
record_one-IsOrdered n (Pc.at_barrier i) s e a v = ground arith
record_one-IsOrdered n (Pc.at_notify i) s e a v = ground arith
record_one-IsOrdered n Pc.done s e a v = ground arith
record_one-IsOrdered n Pc.aborted s e a v = absurd a

flush-IsOrdered :
    (n : ℕ) (pc : Pc) (s : Guarded)
    → s.pc ≡ pc
    → At n pc s
    → IsOrdered n s
    → IsOrdered n (act n Action.flush s)
unfolding act
flush-IsOrdered n Pc.start s e a v = ground arith
flush-IsOrdered n (Pc.at_record i) s e a v = ground arith
flush-IsOrdered n (Pc.at_barrier i) s e a v = ground arith
flush-IsOrdered n (Pc.at_notify i) s e a v = ground arith
flush-IsOrdered n Pc.done s e a v = ground arith
flush-IsOrdered n Pc.aborted s e a v = absurd a

freeze-IsOrdered :
    (n : ℕ) (pc : Pc) (s : Guarded)
    → s.pc ≡ pc
    → At n pc s
    → IsOrdered n s
    → IsOrdered n (act n Action.freeze s)
unfolding act
freeze-IsOrdered n Pc.start s e a v = ground arith
freeze-IsOrdered n (Pc.at_record i) s e a v = ground arith
freeze-IsOrdered n (Pc.at_barrier i) s e a v = ground arith
freeze-IsOrdered n (Pc.at_notify i) s e a v = ground arith
freeze-IsOrdered n Pc.done s e a v = ground arith
freeze-IsOrdered n Pc.aborted s e a v = absurd a

wait_layer-IsOrdered :
    (n : ℕ) (s : Guarded) → n < 2 ^ 32 → IsOrdered n s → IsOrdered n (act n Action.wait_layer s)
unfolding act
wait_layer-IsOrdered n s small v = turn-IsOrdered n s.pc s small refl v.at v

pub act-IsOrdered :
    (n : ℕ) (a : Action) (s : Guarded) → n < 2 ^ 32 → IsOrdered n s → IsOrdered n (act n a s)
act-IsOrdered n Action.wait_layer s small v = wait_layer-IsOrdered n s small v
act-IsOrdered n Action.record_one s small v = record_one-IsOrdered n s.pc s refl v.at v
act-IsOrdered n Action.flush s small v = flush-IsOrdered n s.pc s refl v.at v
act-IsOrdered n Action.freeze s small v = freeze-IsOrdered n s.pc s refl v.at v

pub run-IsOrdered :
    (n : ℕ) (as_ : List Action) (s : Guarded)
    → n < 2 ^ 32
    → IsOrdered n s
    → IsOrdered n (run n as_ s)
unfolding run
run-IsOrdered n [] s small v = v
run-IsOrdered n (a ∷ as_) s small v =
    run-IsOrdered n as_ (act n a s) small (act-IsOrdered n a s small v)

pub new_step-IsOrdered : (n : ℕ) → IsOrdered n new_step
new_step-IsOrdered n = record {
  at = (refl, inl refl);
  counted = λ h. omega arith;
  frozen_all = λ h. absurd (cc);
  waited_first = λ h. omega arith;
  recorded_first = inl (omega arith);
}

-- For fewer than 2^32 layers, in every interleaving of the waiting thread, the main thread and a
-- thread that sets all layers ready: when a sender passes a layer, either the waiting thread has
-- waited for the barrier of that layer, and the event of the layer had been recorded or the step
-- flushed, or all layers were set ready.
pub run-layer_order :
    (n : ℕ) (as_ : List Action) (layer : ℕ)
    → n < 2 ^ 32
    → layer_passes (run n as_ new_step) layer ≡ true
    → ((layer < (run n as_ new_step).waited)
        × ((layer < (run n as_ new_step).records) ⊎ ((run n as_ new_step).flushed ≡ true)))
      ⊎ ((run n as_ new_step).frozen ≡ true)
run-layer_order n as_ layer small h =
    first (run n as_ new_step) (run n as_ new_step).frozen refl
      (run-IsOrdered n as_ new_step small (new_step-IsOrdered n)) h
  where
    first :
        (s : Guarded) (f : Bool)
        → s.frozen ≡ f
        → IsOrdered n s
        → layer_passes s layer ≡ true
        → ((layer < s.waited) × ((layer < s.records) ⊎ (s.flushed ≡ true))) ⊎ (s.frozen ≡ true)
    first s true e v h = inr e
    first s false e v h =
        let w = v.waited_first e in
        let l = ltb→lt layer s.data_ready h in
        inl (
          omega arith,
          elim v.recorded_first [ inl r ↦ inl (omega (arith, w, l, r)) | inr f ↦ inr f ],
        )

-- For fewer than 2^32 layers, no interleaving makes an `assert` of `wait_layers` fail.
pub run-no_abort : (n : ℕ) (as_ : List Action) → n < 2 ^ 32 → (run n as_ new_step).pc ≢ Pc.aborted
run-no_abort n as_ small e =
    let v = run-IsOrdered n as_ new_step small (new_step-IsOrdered n) in
    subst (λ pc. At n pc (run n as_ new_step)) e v.at
