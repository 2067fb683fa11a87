-- ===== src/Blockchain.antt =====
-- src/blockchain.rs: the simulated chain. Hashes, addresses and amounts are numbers (the values of
-- fixed-size arrays and of `U256`); a timestamp is an argument; `u64` additions wrap.
-- The crates `ethcore`, `rlp` and `keccak-hash` are the interface `Ethcore`.
mod Types
mod State
pub mod Mine
pub mod Queries
pub mod Simulate
pub mod Rendering
pub mod Samples
mod Tests
pub use Types.*
unfoldable pub use State.*
