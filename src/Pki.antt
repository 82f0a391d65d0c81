-- ===== src/Pki.antt =====
-- The job that sets up the root and the intermediate CA of the servers (vault/client-go/pki).
pub mod Setup
pub mod Process
pub mod MainThread
pub mod Goroutine
pub mod Race
pub mod Written
pub mod Program
pub mod Start
pub mod Whole
pub mod Served
