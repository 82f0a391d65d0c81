-- ===== src/Services.antt =====
-- The two services of the mTLS demonstration (mtls-demo/service-consumer and
-- mtls-demo/service-provider).
pub mod Consumer
pub mod Rounds
pub mod Provider
pub mod Guarded
pub mod Together
