-- ===== src/ClientCa.antt =====
-- The operator for InternalClientCA (operator/internal-client-ca).
pub mod Setup
pub mod Reconciler
pub mod Mounts
pub mod Plan
pub mod Keeps
pub mod Returned
pub mod Effects
pub mod Branches
pub mod Outcome
pub mod Repair
pub mod Frame
