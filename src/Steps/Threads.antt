-- ===== src/Steps/Threads.antt =====
-- kvtransfer/src/step.cpp: a guarded step. One thread runs `wait_layers`; the main thread records events
-- and flushes; another may set all layers ready; the senders wait for a layer each.
use llumnix_kv.Base.{ℕ, ◌+◌, Bool, true, false, List, [], ◌∷◌, ltb, ◌==◌, u32, if◌then◌else◌}
use llumnix_kv.Steps.Semaphore.{passes, release_one, release}

-- Where `wait_layers` stands. `aborted` is its failed `assert`.
pub data Pc : Type 0 where
  start done aborted : Pc
  at_record at_barrier at_notify : ℕ → Pc

-- `record_ready` and `data_ready` are the two semaphores. The rest is not in the source: the layers whose
-- barrier has been waited for, the events recorded, and whether the step is flushed or set ready as a
-- whole.
pub record Guarded : Type 0 where
  pub pc : Pc
  pub record_ready : ℕ
  pub data_ready : ℕ
  pub waited : ℕ
  pub records : ℕ
  pub flushed : Bool
  pub frozen : Bool

abbrev pub new_step : Guarded
new_step = record {
  pc = Pc.start;
  record_ready = 0;
  data_ready = 0;
  waited = 0;
  records = 0;
  flushed = false;
  frozen = false;
}

-- The head of the `for` loop.
abbrev pub next_layer : ℕ → ℕ → Pc
next_layer num_layers i = if ltb i num_layers then Pc.at_record i else Pc.done

-- What follows `notify_layer_ready(layer)`, which returned `val`.
abbrev pub notified : ℕ → ℕ → ℕ → Pc
notified num_layers layer val =
    if ltb layer val
    then if val == num_layers then Pc.done else Pc.aborted
    else next_layer num_layers layer

-- A turn of `wait_layers`: the next call of a semaphore or of the barrier, if it does not block.
unfoldable pub turn : ℕ → Pc → Guarded → Guarded
turn num_layers Pc.start s =
    let val = release s.data_ready 0 in
    record s { data_ready = val; pc = notified num_layers 0 val }
turn num_layers (Pc.at_record i) s =
    if passes s.record_ready i then record s { pc = Pc.at_barrier i } else s
turn num_layers (Pc.at_barrier i) s = record s { pc = Pc.at_notify i; waited = i + 1 }
turn num_layers (Pc.at_notify i) s =
    let next = u32 (i + 1) in
    let val = release s.data_ready next in
    record s { data_ready = val; pc = notified num_layers next val }
turn num_layers Pc.done s = s
turn num_layers Pc.aborted s = s

-- `wait_layer` is a turn of the waiting thread, `record_one` and `flush` are `after_record_one` and
-- `layer_ready_all`, `freeze` is `notify_layer_ready(num_layers)` by another thread. The client drops the
-- guard when it has flushed, so it records no event after that.
pub data Action : Type 0 where
  wait_layer record_one flush freeze : Action

unfoldable pub act : ℕ → Action → Guarded → Guarded
unfolding turn
act num_layers Action.wait_layer s = turn num_layers s.pc s
act num_layers Action.record_one s =
    if s.flushed
    then s
    else record s { record_ready = release_one s.record_ready; records = s.records + 1 }
act num_layers Action.flush s =
    if s.flushed
    then s
    else record s { record_ready = release s.record_ready num_layers; flushed = true }
act num_layers Action.freeze s = record s {
  data_ready = release s.data_ready num_layers;
  frozen = true;
}

unfoldable pub run : ℕ → List Action → Guarded → Guarded
run num_layers [] s = s
run num_layers (a ∷ as_) s = run num_layers as_ (act num_layers a s)

-- `wait_layer_ready`, in a sender.
abbrev pub layer_passes : Guarded → ℕ → Bool
layer_passes s layer = passes s.data_ready layer
