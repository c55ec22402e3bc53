-- ===== src/Core.antt =====
-- The library of src/core: the event loop and the processes.
pub mod Outcome
pub mod Context
pub mod Transfer
pub mod Heap
pub mod Reactor
pub mod Decimal
pub mod ListenFds
pub mod Process
pub mod Startup
