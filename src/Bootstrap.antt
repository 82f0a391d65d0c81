-- ===== src/Bootstrap.antt =====
-- The job that makes the TLS key pair of Vault (vault/client-go/bootstrap/main.go).
pub mod Job
pub mod Outcome
pub mod Start
pub mod Whole
