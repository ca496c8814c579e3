-- ===== src/Stub.antt =====
-- kvtransfer/src/tx_stub.cpp: the sender of one destination worker.
pub mod Ranks
pub mod Marks
pub mod Effective
pub mod Context
pub mod Selection
pub mod Notify
pub mod Task
pub mod States
pub mod Settled
pub mod Finishes
pub mod Sorted
pub mod Binding
pub mod Decode
pub mod Pointers
pub mod Returns
