-- ===== src/Harness.antt =====
-- internal/harness: the engine that injects the faults of a scenario and grades what the observed
-- system (InfraSage) makes of them.
pub mod Texts
pub mod Scenario
pub mod Remote
pub mod Detect
pub mod Rca
pub mod Recover
pub mod Report
pub mod Verdict
pub mod Run
pub mod Total
mod Examples
