-- ===== src/Store.antt =====
-- The shared store (packages/llmops-store/llmops_store.py): its tables as lists of rows, and each SQL
-- statement as a function on them.
pub mod Leases
pub mod Versions
pub mod Accounts
pub mod Logs
pub mod Registry
mod Examples
