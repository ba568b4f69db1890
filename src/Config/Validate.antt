-- ===== src/Config/Validate.antt =====
-- internal/config/validate.go: which configs are accepted.
pub mod Report
pub mod Services
pub mod CheckTypes
pub mod Policy
pub mod Vips
pub mod Sections
pub mod Distinct
pub mod Pace
