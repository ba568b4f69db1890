-- ===== src/Model.antt =====
-- internal/model: the shared vocabulary of the daemon's status.
pub mod State
pub mod Details
pub mod Status
