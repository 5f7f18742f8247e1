-- ===== src/Services.antt =====
-- The services of cmd: their handlers over the database, the cache and the queue of Platform.
pub mod Reply
pub mod User
pub mod Payment
pub mod Order
pub mod Notification
pub mod Auth
pub mod Gateway
mod Examples
mod Trials
