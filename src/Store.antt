-- ===== src/Store.antt =====
-- internal/store: the durable record of settlement.
pub mod Schema
pub mod Statements
pub mod Broadcast
pub mod Recovery
pub mod Fillers
pub mod Signer
pub mod Lease
pub mod Load
pub mod Watch
pub mod Intent
pub mod Verification
pub mod Evolution
pub mod Nonces
pub mod Admission
pub mod Trace
pub mod Uniqueness
pub mod Finality
