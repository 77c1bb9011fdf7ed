-- ===== src/Pool.antt =====
-- object_pool.go: a pool of objects that are made ahead of their use.
mod Defs
pub mod Fills
mod Tests
unfoldable pub use Defs.*
