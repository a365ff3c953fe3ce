-- ===== src/Fleet.antt =====
-- The control plane of the backend (apps/backend/app): which model instances run, and where.
pub mod State
pub mod Autoscaler
pub mod Scheduler
pub mod Instance
pub mod Reconciler
pub mod Manager
pub mod Lifecycle
pub mod Converge
pub mod Leader
pub mod Notifier
pub mod Events
pub mod Examples
pub mod Cost
pub mod LoadMonitor
