-- ===== src/Ethereum.antt =====
-- internal/ethereum: reading the chain through independent providers.
pub mod Agreement
pub mod Reads
pub mod Lookups
