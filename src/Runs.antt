-- ===== src/Runs.antt =====
-- Accuracy evaluations and load tests (apps/backend/app/eval/manager.py, apps/backend/app/perf/manager.py): their rows
-- in the store, what they address, the queue of the evaluations and the one slot of the load tests.
pub mod Table
pub mod Target
pub mod Evals
pub mod Steps
pub mod Places
pub mod Budget
pub mod Settled
pub mod Status
pub mod Tracked
pub mod LoadTest
pub mod Exclusion
pub mod Order
mod Examples
