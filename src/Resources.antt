-- ===== src/Resources.antt =====
-- The custom resources that the operators serve (operator/*/api/v1alpha1).
pub mod Certificates
pub mod ClientCas
