-- ===== src/ClientCa/Repair.antt =====
-- A setup that broke off is not taken up again: the listed mount hides what is missing.
use service_identity_provide.Base.{String, ◌≡◌, refl, ◌∙◌, ap, true, false, List, arith}
use service_identity_provide.Base.Lists.{has_mount, count_if}
use service_identity_provide.Objects.{Result, ok, err}
use service_identity_provide.Resources.ClientCas.{InternalClientCa}
use service_identity_provide.Cluster.{Cluster, Call, is_setup, World, Outcome}
use service_identity_provide.Cluster.Laws.{VaultLaws}
use service_identity_provide.Cluster.Rules.{bind_rule, vault_rule}
use service_identity_provide.ClientCa.Setup.{
  client_ca_ttl, client_ca_role, enable_request, root_request, urls_request, role_request, finish,
  set_role, set_urls, set_root, set_ttl, enable_pki_client_ca,
}
use service_identity_provide.ClientCa.Reconciler.{
  mount_of, client_ca_path, store_new, reconcile_absent, reconcile_present, reconcile_loaded,
}
use service_identity_provide.ClientCa.Mounts.{client_ca_path-mount_of}
use service_identity_provide.ClientCa.Branches.{
  ListReply, listed_world, loaded_present, loaded_absent, loaded_unlisted,
}

module _ (c : Cluster) (L : VaultLaws c) (cr : InternalClientCa) where
  abbrev pub IsMounted : c.Vault → Type 0
  IsMounted v = has_mount (client_ca_path cr) (L.mounts v) ≡ true

  finish-mounts :
      (path cert : String) (w : World c.Kube c.Vault)
      → L.mounts (finish c path cert w).1.vault ≡ L.mounts w.vault
  unfolding finish
  finish-mounts path cert w = grind (arith, L.http_keeps)

  store_new-vault :
      (cert : String) (w : World c.Kube c.Vault) → (store_new c cr cert w).1.vault ≡ w.vault
  unfolding store_new
  store_new-vault cert w = ground arith

  -- From the second step on a setup leaves the listed mounts alone.
  set_ttl-mounts :
      (path : String) (w : World c.Kube c.Vault)
      → L.mounts (set_ttl c cr path w).1.vault ≡ L.mounts w.vault
  unfolding set_ttl set_root set_urls set_role
  set_ttl-mounts path w =
      vault_rule Same (Call.tune_mount path client_ca_ttl) (c.vault_tune_mount path client_ca_ttl)
        (λ _. set_root c cr path) w
        (
          λ _ _.
              vault_rule Same (Call.generate_root "internal" (root_request cr) path)
                (c.vault_generate_root "internal" (root_request cr) path) (set_urls c path) _
                (
                  λ cert _.
                      vault_rule Same (Call.configure_urls (urls_request path) path)
                        (c.vault_configure_urls (urls_request path) path)
                        (λ _. set_role c path cert) _
                        (
                          λ _ _.
                              vault_rule Same (Call.write_role client_ca_role role_request path)
                                (c.vault_write_role client_ca_role role_request path)
                                (λ _. finish c path cert) _
                                (λ _ _. finish-mounts path cert _ ∙ role, λ _ _. role),
                          λ _ _. urls,
                        ),
                  λ _ _. root,
                ),
          λ _ _. tune,
        )
    where
      Same : Outcome String → World c.Kube c.Vault → Type 0
      Same o w' = L.mounts w'.vault ≡ L.mounts w.vault

      v₁ : c.Vault
      v₁ = (c.vault_tune_mount path client_ca_ttl w.vault).1

      v₂ : c.Vault
      v₂ = (c.vault_generate_root "internal" (root_request cr) path v₁).1

      v₃ : c.Vault
      v₃ = (c.vault_configure_urls (urls_request path) path v₂).1

      tune : L.mounts v₁ ≡ L.mounts w.vault
      tune = L.tune_keeps path client_ca_ttl w.vault

      root : L.mounts v₂ ≡ L.mounts w.vault
      root = L.root_keeps "internal" (root_request cr) path v₁ ∙ tune

      urls : L.mounts v₃ ≡ L.mounts w.vault
      urls = L.urls_keeps (urls_request path) path v₂ ∙ root

      role : L.mounts (c.vault_write_role client_ca_role role_request path v₃).1 ≡ L.mounts w.vault
      role = L.role_keeps client_ca_role role_request path v₃ ∙ urls

  -- A run in which the mount is listed sends no request that sets anything up.
  present_no_setup :
      (w : World c.Kube c.Vault)
      → count_if is_setup (reconcile_present c cr w).1.trace ≡ count_if is_setup w.trace
  unfolding reconcile_present
  present_no_setup w = ground arith

  abbrev pub Enabled : World c.Kube c.Vault → Type 0
  Enabled w = (c.vault_enable_engine (mount_of cr) enable_request w.vault).0 ≡ ok tt

  IsMounted-once-Enabled :
      (w : World c.Kube c.Vault)
      → Enabled w
      → IsMounted (c.vault_enable_engine (mount_of cr) enable_request w.vault).1
  IsMounted-once-Enabled w done =
      rw (client_ca_path-mount_of cr) (L.enable_lists (mount_of cr) enable_request w.vault done)

  setup-IsMounted :
      (w : World c.Kube c.Vault)
      → Enabled w
      → IsMounted (enable_pki_client_ca c cr (mount_of cr) w).1.vault
  unfolding enable_pki_client_ca
  setup-IsMounted w done =
      vault_rule (λ _ w'. IsMounted w'.vault) (Call.enable_engine (mount_of cr) enable_request)
        (c.vault_enable_engine (mount_of cr) enable_request) (λ _. set_ttl c cr (mount_of cr)) w
        (
          λ _ _. rw (set_ttl-mounts (mount_of cr)) (IsMounted-once-Enabled w done),
          λ _ _. IsMounted-once-Enabled w done,
        )

  absent-IsMounted :
      (w : World c.Kube c.Vault) → Enabled w → IsMounted (reconcile_absent c cr w).1.vault
  unfolding reconcile_absent
  absent-IsMounted w done =
      bind_rule (λ _ w'. IsMounted w'.vault) (enable_pki_client_ca c cr (mount_of cr))
        (store_new c cr) w (λ cert _. rw (store_new-vault cert) (setup-IsMounted w done))
        (λ _ _. setup-IsMounted w done)

  listed_no_setup :
      (w : World c.Kube c.Vault)
      → IsMounted w.vault
      → count_if is_setup (reconcile_loaded c cr w).1.trace ≡ count_if is_setup w.trace
  listed_no_setup w mounted = split (ListReply c w) refl
    where
      split :
          (r : Result (List String))
          → ListReply c w ≡ r
          → count_if is_setup (reconcile_loaded c cr w).1.trace ≡ count_if is_setup w.trace
      split (ok ms) e =
          ap (λ (r : Outcome (Unit {0}) × World c.Kube c.Vault). count_if is_setup r.1.trace)
            (loaded_present c cr w ms e (rw (L.list_ok w.vault ms e) mounted))
          ∙ present_no_setup (listed_world c w)
      split (err x) e =
          ap (λ (r : Outcome (Unit {0}) × World c.Kube c.Vault). count_if is_setup r.1.trace)
            (loaded_unlisted c cr w x e)

  -- Once Vault has enabled the engine of a resource, the run may fail at any later step: it leaves
  -- the mount listed, and no run that finds the mount listed, in whatever state everything else is
  -- by then, sends a request of the setup. So neither the TTL, the root, the URLs nor the role that
  -- is missing is set as long as the mount is there.
  pub setup_never_resumed :
      (w : World c.Kube c.Vault) (mounts : List String) (later : World c.Kube c.Vault)
      → ListReply c w ≡ ok mounts
      → has_mount (client_ca_path cr) mounts ≡ false
      → Enabled (listed_world c w)
      → IsMounted later.vault
      → IsMounted (reconcile_loaded c cr w).1.vault
        × (count_if is_setup (reconcile_loaded c cr later).1.trace ≡ count_if is_setup later.trace)
  setup_never_resumed w mounts later listed missing done still = (
    rw (loaded_absent c cr w mounts listed missing) (absent-IsMounted (listed_world c w) done),
    listed_no_setup later still,
  )
