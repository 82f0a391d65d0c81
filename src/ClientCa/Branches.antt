-- ===== src/ClientCa/Branches.antt =====
-- The two branches of `Reconcile`, by the mounts that Vault lists.
use service_identity_provide.Base.{◌≡◌, true, false, String, List, ◌∷◌, arith}
use service_identity_provide.Base.Lists.{has_mount}
use service_identity_provide.Objects.{Secret, Error, Result, ok, err}
use service_identity_provide.Resources.ClientCas.{InternalClientCa}
use service_identity_provide.Cluster.{Cluster, Call, World, returned, failed}
use service_identity_provide.ClientCa.Setup.{enable_pki_client_ca}
use service_identity_provide.ClientCa.Reconciler.{
  mount_of, client_ca_path, build_secret_from, reconcile_absent, reconcile_present, after_mounts,
  reconcile_loaded,
}

module _ (c : Cluster) where
  -- The world after the mounts were listed.
  abbrev pub listed_world : World c.Kube c.Vault → World c.Kube c.Vault
  listed_world w = record w {
    vault = (c.vault_list_mounts w.vault).1;
    trace = Call.list_mounts ∷ w.trace;
  }

  abbrev pub ListReply : World c.Kube c.Vault → Result (List String)
  ListReply w = (c.vault_list_mounts w.vault).0

module _ (c : Cluster) (cr : InternalClientCa) where
  pub loaded_present :
      (w : World c.Kube c.Vault) (mounts : List String)
      → ListReply c w ≡ ok mounts
      → has_mount (client_ca_path cr) mounts ≡ true
      → reconcile_loaded c cr w ≡ reconcile_present c cr (listed_world c w)
  unfolding reconcile_loaded after_mounts
  loaded_present w mounts listed there = ground arith

  pub loaded_absent :
      (w : World c.Kube c.Vault) (mounts : List String)
      → ListReply c w ≡ ok mounts
      → has_mount (client_ca_path cr) mounts ≡ false
      → reconcile_loaded c cr w ≡ reconcile_absent c cr (listed_world c w)
  unfolding reconcile_loaded after_mounts
  loaded_absent w mounts listed missing = ground arith

  pub loaded_unlisted :
      (w : World c.Kube c.Vault) (e : Error)
      → ListReply c w ≡ err e
      → reconcile_loaded c cr w ≡ (failed e, listed_world c w)
  unfolding reconcile_loaded
  loaded_unlisted w e h = ground arith

  -- A Secret that is there already makes the first run fail, although the code tests for that
  -- error: whatever error the creation has is the error of the run.
  pub absent_create_failure :
      (w : World c.Kube c.Vault) (cert : String) (s : Secret) (e : Error)
      → let (o, w') = enable_pki_client_ca c cr (mount_of cr) w in
        o ≡ returned cert
        → build_secret_from c cr cert ≡ returned s
        → (c.kube_create_secret s w'.kube).0 ≡ err e
        → (reconcile_absent c cr w).0 ≡ failed e
  unfolding reconcile_absent
  absent_create_failure w cert s e done built failure = ground arith
