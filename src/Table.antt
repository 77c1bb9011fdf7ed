-- ===== src/Table.antt =====
-- The structure that lru.go and lru_optimized.go share: a Go map from keys to list elements, beside
-- the linked list of these elements. An element is named by a number, its pointer.
mod Defs
mod Dict
mod Laws
mod View
unfoldable pub use Defs.*
pub use Dict.*
pub use Laws.*
pub use View.*
