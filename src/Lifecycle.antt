-- ===== src/Lifecycle.antt =====
-- Creating and scaling a cluster (sync_rediscluster.go).
pub mod Endpoints
pub mod Ready
pub mod Create
pub mod Upgrade
pub mod Named
pub mod Order
pub mod Formed
pub mod Created
pub mod Running
pub mod Lines
pub mod Scaled
pub mod Upgraded
pub mod Reports
pub mod Sorted
pub mod Quiet
pub mod Phases
