-- ===== src/Handler.antt =====
-- The interface `Handler` of cache.go, as the composed handlers use it, and what they rely on.
mod Defs
pub mod LruHandler
unfoldable pub use Defs.*
