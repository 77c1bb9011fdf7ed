-- ===== src/Index.antt =====
-- cache_index.go: sets of Redis that record which cache keys belong to an index.
mod Defs
pub mod Clears
mod Tests
unfoldable pub use Defs.*
