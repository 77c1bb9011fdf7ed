-- ===== src/Hot.antt =====
-- hotkey.go: a map that is kept whole under one key of Redis, with a local copy.
pub mod Server
pub mod Defs
pub mod Calls
pub mod Manager
pub mod Order
pub mod Evicts
pub mod Sweeps
pub mod Sharing
mod Tests
unfoldable pub use Server.*
unfoldable pub use Defs.*
unfoldable pub use Calls.*
