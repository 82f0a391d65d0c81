-- ===== src/Pki/Whole.antt =====
-- The PKI job from its `init` on.
use service_identity_provide.Base.{Bool, List, String, ◌≡◌, subst, arith, refl}
use service_identity_provide.Cluster.{Cluster, World, Outcome, returned, failed, panicked, exited}
use service_identity_provide.Cluster.Laws.{KubeLaws, Secrets}
use service_identity_provide.Startup.{pod_namespace, root_token_key, client_with_token}
use service_identity_provide.Pki.Setup.{read_root_token}
use service_identity_provide.Pki.Program.{OnlyRoot, root_of, program-OnlyRoot}
use service_identity_provide.Pki.Start.{init, after_init, process}

module _ (c : Cluster) (L : KubeLaws c) where
  init-keeps : (w : World c.Kube c.Vault) → L.secrets (init c w).1.kube ≡ L.secrets w.kube
  unfolding init read_root_token client_with_token
  init-keeps w = ground (arith, L.get_secret_keeps (root_token_key c) w.kube)

  -- By how `init` ended in a world: the Secrets are those of an unchanged cluster, or of one where
  -- `main` ran with the token.
  abbrev pub RootOnly : Outcome String → World c.Kube c.Vault → Secrets → Secrets → Type 0
  RootOnly (returned token) w before after =
      OnlyRoot c token (pod_namespace c) (root_of c token (pod_namespace c) w.vault) before after
  RootOnly (failed e) w before after = after ≡ before
  RootOnly panicked w before after = after ≡ before
  RootOnly (exited n) w before after = after ≡ before

  after_init-RootOnly :
      (schedule : List Bool) (o : Outcome String) (w : World c.Kube c.Vault)
      → RootOnly o w (L.secrets w.kube) (L.secrets (after_init c schedule o w).1.kube)
  after_init-RootOnly schedule (returned token) w =
      program-OnlyRoot c token (pod_namespace c) L schedule w
  after_init-RootOnly schedule (failed e) w = refl
  after_init-RootOnly schedule panicked w = refl
  after_init-RootOnly schedule (exited n) w = refl

  -- On every schedule, the PKI job changes no Secret at all, unless its `init` returned, Vault did
  -- not list sip-root-ca/ and made a root on it; then every Secret is as before, or it is the Secret
  -- sip-root-ca of its own namespace and holds the certificate that Vault answered for this root.
  pub process-RootOnly :
      (schedule : List Bool) (w : World c.Kube c.Vault)
      → let (o, w1) = init c w in
        RootOnly o w1 (L.secrets w.kube) (L.secrets (process c schedule w).1.kube)
  unfolding process
  process-RootOnly schedule w =
      let (o, w1) = init c w in
      subst (λ before. RootOnly o w1 before (L.secrets (after_init c schedule o w1).1.kube))
        (init-keeps w) (after_init-RootOnly schedule o w1)
