-- ===== src/Targets.antt =====
-- kvtransfer/src/client.cpp, `TargetMgr`: the senders that the client keeps, one for each destination,
-- the latest used first.
pub mod Map
pub mod MapLaws
pub mod Manager
pub mod Nodes
pub mod Spec
pub mod Refine
pub mod Evict
pub mod Shrink
pub mod Held
pub mod Writes
