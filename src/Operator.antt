-- ===== src/Operator.antt =====
-- The entry points of the two operators: operator/internal-cert/cmd/main.go and
-- operator/internal-client-ca/cmd/main.go.
pub mod Flags
pub mod Given
pub mod Options
pub mod Manager
pub mod Start
pub mod Certs
pub mod Cas
pub mod Rules
pub mod Wiring
pub mod Offered
