-- ===== src/Pki/Start.antt =====
-- The process of the PKI job: `init`, then `main`.
use service_identity_provide.Base.{String, Bool, List}
use service_identity_provide.Cluster.{
  Cluster, World, Outcome, returned, failed, panicked, exited, Status, ◌>>=◌, or_fatal,
}
use service_identity_provide.Cluster.Api.{Go}
use service_identity_provide.Startup.{pod_namespace, connect, client_with_token}
use service_identity_provide.Pki.Setup.{read_root_token}
use service_identity_provide.Pki.Process.{program}

module _ (c : Cluster) where
  -- The root token, with which Vault's client is made.
  unfoldable pub init : Go c String
  unfolding read_root_token client_with_token
  init = or_fatal (connect c) >>= λ _.
      read_root_token c (pod_namespace c) >>= λ token. client_with_token c token

  abbrev pub after_init :
      List Bool → Outcome String → World c.Kube c.Vault → Status × World c.Kube c.Vault
  after_init schedule (returned token) w = program c token (pod_namespace c) schedule w
  after_init schedule (failed e) w = (Status.crashed, w)
  after_init schedule panicked w = (Status.crashed, w)
  after_init schedule (exited n) w = (Status.ended n, w)

  unfoldable pub process : List Bool → World c.Kube c.Vault → Status × World c.Kube c.Vault
  unfolding init
  process schedule w = let (o, w') = init w in after_init schedule o w'
