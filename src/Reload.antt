-- ===== src/Reload.antt =====
-- internal/reload: how a changed config file is applied to a running daemon.
pub mod Build
pub mod Pace
pub mod State
pub mod Staging
pub mod Commit
pub mod Apply
pub mod Prepare
pub mod Attempt
pub mod Progress
pub mod Outcome
