-- ===== src/Demo.antt =====
-- The certificate tool of the mTLS demonstration (mtls-demo, package main).
pub mod Machine
pub mod Util
pub mod Flows
pub mod Chains
pub mod Keys
pub mod Run
pub mod Issued
pub mod Root
pub mod Intermediate
pub mod Signed
pub mod Whole
