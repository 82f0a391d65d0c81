-- ===== src/Cert.antt =====
-- The operator for InternalCertificate (operator/internal-cert).
pub mod Webhook
pub mod Reconciler
pub mod Requests
pub mod Provision
pub mod Content
pub mod Outcome
pub mod Settled
pub mod Frame
pub mod Admission
