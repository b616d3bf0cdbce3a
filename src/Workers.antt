-- ===== src/Workers.antt =====
-- redis_operator.go: the handlers that NewRedisClusterOperator installs, and the workers that Run starts.
pub mod Handlers
pub mod Waking
pub mod Steps
pub mod Marks
pub mod Single
pub mod Spec
pub mod Crowd
