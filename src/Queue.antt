-- ===== src/Queue.antt =====
-- The serial task queue of the panel: executor/queue.go, the task types of executor/types.go and
-- the operation log of executor/operation_log.go.
pub mod Types
pub mod OperationLog
pub mod Worker
pub mod Consistent
pub mod Invariant
pub mod Order
pub mod Progress
mod Examples
