-- ===== src/Bootstrap/Start.antt =====
-- The process of the TLS job: `init`, then `main`. Here a configuration that makes no client is an
-- error, and ends the process with status 1 too.
use service_identity_provide.Cluster.{Cluster, outcome_of, ◌>>=◌, lift, or_fatal}
use service_identity_provide.Cluster.Api.{Go}
use service_identity_provide.Startup.{go_on_if}
use service_identity_provide.Bootstrap.Job.{main}

module _ (c : Cluster) where
  unfoldable pub init : Go c (Unit {0})
  init = or_fatal (lift (outcome_of c.in_cluster_config)) >>= λ _. lift (go_on_if c.accepts_config)

  unfoldable pub process : Go c (Unit {0})
  unfolding init main
  process = init >>= λ _. main c (c.getenv "VAULT_K8S_NAMESPACE") (c.getenv "K8S_CLUSTER_NAME")
