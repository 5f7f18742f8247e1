-- ===== src/Ecom.antt =====
-- internal/ecom: the scenarios of dims.go and the injector of inject.go.
pub mod Injector
pub mod History
mod Examples
