-- ===== src/Verification.antt =====
-- internal/verification/service.go: the /verify service.
pub mod Request
pub mod Service
