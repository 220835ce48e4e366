-- ===== src/Entityd.antt =====
-- The process of an entity: entityd/main.cpp and entityd/cleanup.h.
pub mod Command
pub mod Cleanup
pub mod Network
pub mod Address
pub mod Undo
pub mod Active
pub mod Setup
pub mod Shutdown
pub mod Main
pub mod Leaves
mod Tests
