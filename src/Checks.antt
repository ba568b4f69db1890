-- ===== src/Checks.antt =====
-- internal/checks: the schedulers of the health checks, and the registry that runs them.
pub mod Result
pub mod Scheduler
pub mod Registry
pub mod Guard
