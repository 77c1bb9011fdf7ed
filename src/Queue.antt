-- ===== src/Queue.antt =====
-- queue.go: queues of marshalled items in lists and sorted sets of Redis.
pub mod Server
pub mod Defs
pub mod Views
pub mod Order
pub mod Agrees
pub mod Delays
pub mod Memory
pub mod Tests
unfoldable pub use Server.*
unfoldable pub use Defs.*
unfoldable pub use Views.*
