-- ===== src/ClientCa/Plan.antt =====
-- The requests of the setup of a client CA, in any cluster: nothing is assumed of the services.
use service_identity_provide.Base.{String, ◌≡◌, inr, refl, List, [], ◌∷◌, arith}
use service_identity_provide.Base.Lists.{Sent, Sent-none}
use service_identity_provide.Base.Fields.{field}
use service_identity_provide.Objects.{Secret, Result, ok, err}
use service_identity_provide.Resources.ClientCas.{InternalClientCa}
use service_identity_provide.Cluster.{Cluster, Call, World, M, ◌>>=◌, ask_vault}
use service_identity_provide.Cluster.Rules.{vault_rule}
use service_identity_provide.Startup.{root_token_key}
use service_identity_provide.ClientCa.Setup.{
  client_ca_ttl, client_ca_role, enable_request, root_request, urls_request, role_request,
  flag_request, finish, set_role, set_urls, set_root, set_ttl, enable_pki_client_ca,
}

-- The token that a reply holds.
abbrev pub token_in : Result Secret → String
token_in (ok s) = field s.data_fields "token"
token_in (err e) = ""

-- One request to Vault, and the rest of the plan.
module _ {K V A B : Type 0} where
  vault-Sent :
      (plan : List Call) (call : Call) (g : V → Result A × V) (f : A → M K V B) (w : World K V)
      → ((a : A) (v : V)
          → let w' : World K V = record w { vault = v; trace = call ∷ w.trace } in
            Sent plan (call ∷ w.trace) (f a w').1.trace)
      → Sent (call ∷ plan) w.trace ((ask_vault call g >>= f) w).1.trace
  vault-Sent plan call g f w rest = inr (
      vault_rule (λ _ w'. Sent plan (call ∷ w.trace) w'.trace) call g f w
        (λ a _. rest a _, λ _ _. Sent-none plan _ _ refl))

module _ (c : Cluster) where
  module _ (cr : InternalClientCa) (path token : String) where
    -- The plan, its last part first.
    abbrev read_plan : List Call
    read_plan =
        Call.get_secret (root_token_key c)
        ∷ Call.send_http (flag_request path client_ca_role token)
        ∷ []

    abbrev role_plan : List Call
    role_plan = Call.write_role client_ca_role role_request path ∷ read_plan

    abbrev urls_plan : List Call
    urls_plan = Call.configure_urls (urls_request path) path ∷ role_plan

    abbrev root_plan : List Call
    root_plan = Call.generate_root "internal" (root_request cr) path ∷ urls_plan

    abbrev ttl_plan : List Call
    ttl_plan = Call.tune_mount path client_ca_ttl ∷ root_plan

    abbrev pub setup_plan : List Call
    setup_plan = Call.enable_engine path enable_request ∷ ttl_plan

    -- The token is the one that the cluster holds.
    abbrev pub HoldsToken : World c.Kube c.Vault → Type 0
    HoldsToken w = token ≡ token_in (c.kube_get_secret (root_token_key c) w.kube).0

    finish-Sent :
        (cert : String) (w : World c.Kube c.Vault)
        → HoldsToken w
        → Sent read_plan w.trace (finish c path cert w).1.trace
    unfolding finish
    finish-Sent cert w e = rw e (ground arith)

    set_role-Sent :
        (cert : String) (w : World c.Kube c.Vault)
        → HoldsToken w
        → Sent role_plan w.trace (set_role c path cert w).1.trace
    unfolding set_role
    set_role-Sent cert w e =
        vault-Sent read_plan _ (c.vault_write_role client_ca_role role_request path)
          (λ _. finish c path cert) w (λ _ v. finish-Sent cert _ e)

    set_urls-Sent :
        (cert : String) (w : World c.Kube c.Vault)
        → HoldsToken w
        → Sent urls_plan w.trace (set_urls c path cert w).1.trace
    unfolding set_urls
    set_urls-Sent cert w e =
        vault-Sent role_plan _ (c.vault_configure_urls (urls_request path) path)
          (λ _. set_role c path cert) w (λ _ v. set_role-Sent cert _ e)

    set_root-Sent :
        (w : World c.Kube c.Vault)
        → HoldsToken w
        → Sent root_plan w.trace (set_root c cr path w).1.trace
    unfolding set_root
    set_root-Sent w e =
        vault-Sent urls_plan _ (c.vault_generate_root "internal" (root_request cr) path)
          (set_urls c path) w (λ cert v. set_urls-Sent cert _ e)

    set_ttl-Sent :
        (w : World c.Kube c.Vault)
        → HoldsToken w
        → Sent ttl_plan w.trace (set_ttl c cr path w).1.trace
    unfolding set_ttl
    set_ttl-Sent w e =
        vault-Sent root_plan _ (c.vault_tune_mount path client_ca_ttl) (λ _. set_root c cr path) w
          (λ _ v. set_root-Sent _ e)

    -- However the setup of a mount ends, the requests sent are the first few of the plan, in its
    -- order: enable the engine, set its TTL, make the root, set the URLs, write the role, read the
    -- root token, and patch the role with that token.
    pub setup-Sent :
        (w : World c.Kube c.Vault)
        → HoldsToken w
        → Sent setup_plan w.trace (enable_pki_client_ca c cr path w).1.trace
    unfolding enable_pki_client_ca
    setup-Sent w e =
        vault-Sent ttl_plan _ (c.vault_enable_engine path enable_request) (λ _. set_ttl c cr path) w
          (λ _ v. set_ttl-Sent _ e)
