-- ===== src/Manager.antt =====
-- The operations of the manager (manager/*.go).
pub mod Order
pub mod Reap
pub mod Transaction
pub mod Load
pub mod Attach
pub mod World
pub mod Executor
pub mod Lookup
pub mod Detach
pub mod Unload
pub mod Delete
