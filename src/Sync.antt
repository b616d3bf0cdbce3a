-- ===== src/Sync.antt =====
-- pkg/operator/redis/redis_operator.go: the decisions of `sync`, and the work queue around it.
pub mod Core
pub mod Decisions
pub mod Queue
pub mod Retries
pub mod Events
pub mod Attempts
pub mod Written
pub mod Quiet
pub mod Phases
pub mod Course
pub mod Creating
pub mod Scaling
pub mod Strategy
pub mod Steady
pub mod Settled
pub mod Calls
