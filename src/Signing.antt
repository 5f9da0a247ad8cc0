-- ===== src/Signing.antt =====
-- internal/policy and internal/signer: what may be signed.
pub mod Policy
pub mod Transaction
