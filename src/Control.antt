-- ===== src/Control.antt =====
-- The control program: control/main.cpp.
pub mod Calls
pub mod Verbs
pub mod Arguments
pub mod Token
pub mod Validators
mod Tests
