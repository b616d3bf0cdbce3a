-- ===== src/Repair.antt =====
-- check_rediscluster.go: the check of a cluster and its repair.
pub mod Parts
pub mod State
pub mod Steps
pub mod Check
pub mod Anew
pub mod Reformed
pub mod Quiet
pub mod Phases
pub mod Course
