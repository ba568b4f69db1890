-- ===== src/Config.antt =====
-- internal/config: the shape of the config file, its checks policies and the difference of two configs.
pub mod Sections
pub mod Checks
pub mod Vip
pub mod Equality
pub mod Diff
pub mod ChecksPolicy
pub mod Stdlib
pub mod Validate
pub mod Defaults
pub mod Load
pub mod Placeholders
