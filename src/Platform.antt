-- ===== src/Platform.antt =====
-- internal/platform: the simulated database, cache and queue that the services keep in memory.
pub mod Assoc
pub mod Db
pub mod Cache
pub mod Queue
