-- ===== src/DeadLetters.antt =====
-- dead_letter_queue.go: a queue of items that failed, bounded in size, with alerts on its length.
pub mod Defs
pub mod Bound
mod Tests
unfoldable pub use Defs.*
