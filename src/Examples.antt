-- ===== src/Examples.antt =====
-- Concrete runs in the memory cluster, and the theorems at inputs that meet their hypotheses.
mod Certs
mod Cas
mod Pki
mod Unseal
mod Bootstrap
mod Demo
mod Operator
mod Services
