-- ===== src/Entity.antt =====
-- The entities of the daemon: daemon/entity.cpp.
pub mod Queue
pub mod Answers
pub mod State
pub mod Lifecycle
pub mod Parts
pub mod Supported
pub mod UplinkStarts
pub mod Starts
pub mod Waits
pub mod Finishes
pub mod Components
pub mod Total
pub mod Accepted
pub mod Stop
pub mod Again
pub mod Interleaved
pub mod Exclusive
pub mod Progress
pub mod Backed
pub mod Orderly
pub mod Refines
pub mod Alone
pub mod Controller
pub mod Requests
pub mod Line
mod Tests
