-- ===== src/Shopify.antt =====
-- internal/shopify: the mock shop, its webhooks, and the incidents that it can be put into.
pub mod Types
pub mod Names
pub mod Catalog
pub mod Store
pub mod Incident
pub mod Emitter
pub mod Rest
mod Examples
mod Trials
