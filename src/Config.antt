-- ===== src/Config.antt =====
-- daemon/config.h, daemon/config.cpp and daemon/common_definitions.h.
pub mod Names
pub mod Validate
pub mod Metadata
pub mod Add
pub mod Paths
pub mod Checks
pub mod Loop
pub mod Keys
pub mod Touches
pub mod Network
pub mod Entity
pub mod Components
pub mod Store
pub mod Kept
pub mod Valid
pub mod Sound
pub mod Crash
pub mod Load
mod Tests
