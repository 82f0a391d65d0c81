-- ===== src/Unseal/Start.antt =====
-- The process of the unsealing job: `init`, then `main`. The error of the client of the first node
-- is dropped by `init`, and `main` finds no client.
use service_identity_provide.Base.{String, List, ◌≡◌, ◌⊎◌, refl, arith}
use service_identity_provide.Base.Split.{split}
use service_identity_provide.Cluster.{
  Cluster, World, Outcome, returned, failed, panicked, exited, Status, ◌>>=◌, pure, or_fatal,
}
use service_identity_provide.Cluster.Api.{Go}
use service_identity_provide.Startup.{pod_namespace, connect}
use service_identity_provide.Unseal.Process.{Thread, fqdns}
use service_identity_provide.Unseal.Begin.{program}

module _ (c : Cluster) where
  -- `vaultFQDNs`, which is never empty.
  abbrev pub vault_fqdns : List String
  vault_fqdns =
      fqdns (pod_namespace c) (c.getenv "KUBERNETES_CLUSTER_DOMAIN")
        (split (c.getenv "VAULT_CLUSTER") ",")

  unfoldable pub init : Go c (List String)
  unfolding split
  init = or_fatal (connect c) >>= λ _. pure vault_fqdns

  abbrev pub after_init :
      List Thread → Outcome (List String) → World c.Kube c.Vault → Status × World c.Kube c.Vault
  after_init schedule (returned names) w = program c (pod_namespace c) schedule names w
  after_init schedule (failed e) w = (Status.crashed, w)
  after_init schedule panicked w = (Status.crashed, w)
  after_init schedule (exited n) w = (Status.ended n, w)

  unfoldable pub process : List Thread → World c.Kube c.Vault → Status × World c.Kube c.Vault
  unfolding init
  process schedule w = let (o, w') = init w in after_init schedule o w'

  -- A process that came as far as `main`.
  pub process-connected :
      (schedule : List Thread) (w : World c.Kube c.Vault) (names : List String)
      → init w ≡ (returned names, w)
      → process schedule w ≡ program c (pod_namespace c) schedule names w
  unfolding process
  process-connected schedule w names e = rw e refl

  -- `init` makes no request, and ends the process or gives the names.
  pub init-cases :
      (w : World c.Kube c.Vault)
      → (init w ≡ (returned vault_fqdns, w)) ⊎ ((init w ≡ (exited 1, w)) ⊎ (init w ≡ (panicked, w)))
  unfolding init
  init-cases w = ground arith
