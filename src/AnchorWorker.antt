-- ===== src/AnchorWorker.antt =====
-- The anchor worker (backend/anchor_worker/): the outbox of steps to anchor, its claims, batches,
-- failures and recovery. Each SQL statement is an update of a table as a list of rows; a call of
-- a function of this code runs in its own transaction, so it is one step on the database.
mod Tables
pub mod Outbox
pub mod LogStep
pub mod Batch
pub mod Submission
pub mod Sending
pub mod Outcomes
pub mod Worker
pub mod Ceiling
pub mod Iteration
pub mod Fees
pub mod Invariant
pub mod Claims
pub mod Lifecycle
pub mod Recovery
pub mod HexTexts
pub mod Grouping
pub mod BatchProofs
pub mod Reconciliation
mod Tests
mod WorkerTests
pub use Tables.*
