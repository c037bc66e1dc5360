-- ===== src/Storage.antt =====
-- src/chain/storage.rs: the chain in memory. `Defs` has the state, lookup and insertion, `Build` the
-- building of a block; the other modules below hold the proofs.
mod Defs
mod Build
pub mod Chain
pub mod Execute
pub mod Served
pub mod Represents
pub mod Insert
pub mod Lookup
unfoldable pub use Defs.*
unfoldable pub use Build.*
