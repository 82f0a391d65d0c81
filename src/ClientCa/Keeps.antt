-- ===== src/ClientCa/Keeps.antt =====
-- What a setup leaves alone: it touches Kubernetes only to read the root token.
use service_identity_provide.Base.{String, ◌≡◌, refl, ◌∙◌, ap, arith}
use service_identity_provide.Objects.{Error}
use service_identity_provide.Resources.ClientCas.{InternalClientCa}
use service_identity_provide.Cluster.{Cluster, Call, World, Outcome, failed}
use service_identity_provide.Cluster.Laws.{KubeLaws}
use service_identity_provide.Cluster.Rules.{vault_rule}
use service_identity_provide.Startup.{root_token_key}
use service_identity_provide.ClientCa.Setup.{
  client_ca_ttl, client_ca_role, enable_request, root_request, urls_request, role_request, finish,
  set_role, set_urls, set_root, set_ttl, enable_pki_client_ca,
}

module _ (c : Cluster) (cr : InternalClientCa) (path : String) where
  -- A setup ends with an error of Vault, or with its last part, both from the Kubernetes state
  -- that it began with.
  pub setup_rule :
      (Q : Outcome String → World c.Kube c.Vault → Type 0) (w : World c.Kube c.Vault)
      → ((e : Error) (w' : World c.Kube c.Vault) → w'.kube ≡ w.kube → Q (failed e) w')
      → ((cert : String) (w' : World c.Kube c.Vault)
          → w'.kube ≡ w.kube
          → Q (finish c path cert w').0 (finish c path cert w').1)
      → Q (enable_pki_client_ca c cr path w).0 (enable_pki_client_ca c cr path w).1
  unfolding enable_pki_client_ca set_ttl set_root set_urls set_role
  setup_rule Q w stop last =
      vault_rule Q (Call.enable_engine path enable_request)
        (c.vault_enable_engine path enable_request) (λ _. set_ttl c cr path) w
        (
          λ _ _.
              vault_rule Q (Call.tune_mount path client_ca_ttl)
                (c.vault_tune_mount path client_ca_ttl) (λ _. set_root c cr path) _
                (
                  λ _ _.
                      vault_rule Q (Call.generate_root "internal" (root_request cr) path)
                        (c.vault_generate_root "internal" (root_request cr) path) (set_urls c path)
                        _
                        (
                          λ cert _.
                              vault_rule Q (Call.configure_urls (urls_request path) path)
                                (c.vault_configure_urls (urls_request path) path)
                                (λ _. set_role c path cert) _
                                (
                                  λ _ _.
                                      vault_rule Q
                                        (Call.write_role client_ca_role role_request path)
                                        (c.vault_write_role client_ca_role role_request path)
                                        (λ _. finish c path cert) _
                                        (λ _ _. last cert _ refl, λ e _. stop e _ refl),
                                  λ e _. stop e _ refl,
                                ),
                          λ e _. stop e _ refl,
                        ),
                  λ e _. stop e _ refl,
                ),
          λ e _. stop e _ refl,
        )

  module _ (L : KubeLaws c) where
    finish-keeps :
        (cert : String) (w : World c.Kube c.Vault)
        → L.secrets (finish c path cert w).1.kube ≡ L.secrets w.kube
    unfolding finish
    finish-keeps cert w = ground (arith, L.get_secret_keeps (root_token_key c) w.kube)

    -- A setup leaves every Secret alone.
    pub setup-keeps :
        (w : World c.Kube c.Vault)
        → L.secrets (enable_pki_client_ca c cr path w).1.kube ≡ L.secrets w.kube
    setup-keeps w =
        setup_rule (λ _ w'. L.secrets w'.kube ≡ L.secrets w.kube) w (λ _ _ same. ap L.secrets same)
          (λ cert w' same. finish-keeps cert w' ∙ ap L.secrets same)
