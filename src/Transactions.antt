-- ===== src/Transactions.antt =====
-- The transactions of the daemon: daemon/transaction.cpp and daemon/transactions.cpp.
pub mod Transaction
pub mod Manager
pub mod Table
pub mod Commit
pub mod Adds
pub mod Open
pub mod Run
pub mod Attend
pub mod Valid
pub mod History
pub mod Access
mod Tests
