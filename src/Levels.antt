-- ===== src/Levels.antt =====
-- advanced_cache.go and multi_level_cache.go: a cache in Redis, and a handler in memory before it.
pub mod Server
pub mod Advanced
pub mod Multi
pub mod Laws
pub mod Clears
mod Tests
