-- ===== src/Settlement.antt =====
-- internal/settlement: the payment state machine, fees, and the settlement service.
pub mod State
pub mod Fees
pub mod Calldata
pub mod Errors
pub mod Work
pub mod Service
pub mod Confirmation
pub mod Settle
pub mod Recovery
pub mod Sweep
