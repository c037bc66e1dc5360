-- ===== src/Context.antt =====
-- src/chain/context.rs and src/chain/context/: the types that the program gives to the consensus library.
-- `Malachite` is what it takes from that library and from the signature scheme, a parameter. A
-- `u32` address, a `u64` height and a `u64` value id are numbers.
pub mod Malachite
pub mod Height
pub mod PeerSet
pub mod Value
pub mod Vote
pub mod Signing
pub mod Keys
pub mod Base
pub mod Accessors
pub mod Display
