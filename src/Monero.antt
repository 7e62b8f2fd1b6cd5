-- ===== src/Monero.antt =====
-- src/monero/monero.cpp: block templates, varints, addresses and targets.
pub mod Reader
pub mod Varint
pub mod VarintRead
pub mod VarintCanonical
pub mod Parse
pub mod Block
pub mod Local
pub mod BlockLocal
pub mod Mutate
pub mod Nonce
pub mod Target
pub mod Product
pub mod NetworkTarget
pub mod ShareTarget
mod Examples
