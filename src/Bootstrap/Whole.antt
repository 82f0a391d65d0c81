-- ===== src/Bootstrap/Whole.antt =====
-- The TLS job from its `init` on.
use service_identity_provide.Cluster.{Cluster}
