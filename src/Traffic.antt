-- ===== src/Traffic.antt =====
-- cmd/traffic: the traffic generator.
pub mod Stats
pub mod Summaries
pub mod Scenario
pub mod Plan
pub mod Journey
mod Trials
