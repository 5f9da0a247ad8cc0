-- ===== src/Tests.antt =====
-- A small database, and the theorems on it.
pub mod Data
pub mod Traces
pub mod Verification
pub mod Service
pub mod Recovery
pub mod Signing
pub mod Ethereum
pub mod Rules
