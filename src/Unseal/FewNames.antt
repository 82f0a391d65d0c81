-- ===== src/Unseal/FewNames.antt =====
-- The unsealing job where VAULT_CLUSTER has too few names, from its text on.
use service_identity_provide.Base.{String, ◌≡◌, ◌⊎◌}
use service_identity_provide.Cluster.{Cluster, World, Status, running, ended}

module _ (c : Cluster) (key token : String) where
  -- Kubernetes is as before, and the process still runs or was ended with status 1 or 2.
  abbrev pub NothingStored : World c.Kube c.Vault → Status → World c.Kube c.Vault → Type 0
  NothingStored w s w' = (w'.kube ≡ w.kube) × ((s ≡ running) ⊎ ((s ≡ ended 1) ⊎ (s ≡ ended 2)))
