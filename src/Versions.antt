-- ===== src/Versions.antt =====
-- resource_version.go: version numbers of resources, shared through Redis.
mod Defs
pub mod Changes
unfoldable pub use Defs.*
