-- ===== src/Tests.antt =====
-- The theorems at concrete inputs, and runs of the definitions.
mod Fixtures
mod Server
mod Checks
mod Engine
mod Routes
mod Verdicts
mod Registry
mod Diff
mod Status
mod Runs
mod Files
mod Placeholders
mod Configs
mod Bgp
mod Reloads
mod Peers
