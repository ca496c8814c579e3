-- ===== src/Steps.antt =====
-- kvtransfer/src/step.cpp and kvtransfer/src/semaphore.cpp: the signals by which the thread that waits
-- for the layers of a step lets the senders go on.
pub mod Semaphore
pub mod Threads
pub mod Order
pub mod Flush
