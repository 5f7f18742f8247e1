-- ===== src/SysState.antt =====
-- internal/sysstate: the health of the fleet, forced by hand or derived from the time.
pub mod Incident
pub mod Health
pub mod Http
pub mod Phases
mod Examples
