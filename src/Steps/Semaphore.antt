-- ===== src/Steps/Semaphore.antt =====
-- kvtransfer/src/semaphore.cpp. A semaphore is its counter `ready_`; the mutex makes each call atomic.
use llumnix_kv.Base.{ℕ, ◌+◌, Bool, ltb, u32, if◌then◌else◌}

-- Whether `wait(cond)` returns.
abbrev pub passes : ℕ → ℕ → Bool
passes ready cond = ltb cond ready

-- `release()`
abbrev pub release_one : ℕ → ℕ
release_one ready = u32 (ready + 1)

-- `release(cond)`, which returns the new counter.
abbrev pub release : ℕ → ℕ → ℕ
release ready cond = if ltb ready cond then cond else ready
