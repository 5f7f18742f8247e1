-- ===== src/Chaos.antt =====
-- internal/chaos: the fault switches of a service, their shapes, and the remediation surface.
pub mod Kind
pub mod State
pub mod Spec
pub mod Enable
pub mod Query
pub mod Control
pub mod Campaign
pub mod Run
pub mod Http
mod Examples
