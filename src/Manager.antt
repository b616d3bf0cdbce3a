-- ===== src/Manager.antt =====
-- cmd/operator-manager: the options of the manager, which operators are enabled, and its start.
pub mod Options
pub mod Enabled
pub mod Start
pub mod Order
