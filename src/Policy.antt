-- ===== src/Policy.antt =====
-- internal/policy: from check results to routes.
pub mod Engine
pub mod Notifier
pub mod State
pub mod Manager
pub mod Handlers
pub mod Commit
pub mod Sync
pub mod Verdict
pub mod Status
pub mod Runs
