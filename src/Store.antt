-- ===== src/Store.antt =====
-- internal/store/store.go. Every method holds the store's mutex, so each is one function. A watch
-- callback is started as a goroutine: an operation returns the calls that it starts, and when they run
-- is up to the caller. The map holds pointers, but each node is reached through its key alone.
mod Types
mod Writes
mod Reads
mod Ephemerals
pub mod Tree
pub mod TreeGrow
pub mod TreeCreate
pub mod TreeDelete
pub mod Contents
pub mod Updates
pub mod Cas
pub mod Expiry
pub mod Flat
pub mod TreeExpiry
pub mod Listing
pub mod ListingCreate
pub mod Reach
pub mod RootSequence
unfoldable pub use Types.*
unfoldable pub use Writes.*
unfoldable pub use Reads.*
unfoldable pub use Ephemerals.*
