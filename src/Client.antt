-- ===== src/Client.antt =====
-- kvtransfer/src/client.cpp, `KvTransferClient`: requests come in, are grouped by destination, and are
-- handed to the targets with the step that they belong to.
pub mod Tasks
pub mod Routing
pub mod Grouped
pub mod Submit
pub mod InFlight
pub mod Jobs
pub mod Dispatch
pub mod Schedule
pub mod State
pub mod StartSend
pub mod Coord
pub mod Substep
