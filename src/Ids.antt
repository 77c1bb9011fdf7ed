-- ===== src/Ids.antt =====
-- id_generator.go: identifiers from a time and a sequence number that Redis counts.
mod Defs
mod Server
pub mod Format
pub mod Unique
mod Tests
unfoldable pub use Defs.*
unfoldable pub use Server.*
