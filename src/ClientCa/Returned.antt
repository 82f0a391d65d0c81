-- ===== src/ClientCa/Returned.antt =====
-- What a setup that ends without an error has done, and the certificate that it returns.
use service_identity_provide.Base.{String, Bool, true, false, ◌≡◌, List, ◌∷◌, arith}
use service_identity_provide.Objects.{Secret, Result, ok, err}
use service_identity_provide.Resources.ClientCas.{InternalClientCa}
use service_identity_provide.Cluster.{Cluster, Call, World, Outcome, returned}
use service_identity_provide.Cluster.Rules.{vault_rule}
use service_identity_provide.Startup.{root_token_key}
use service_identity_provide.ClientCa.Setup.{
  client_ca_ttl, client_ca_role, enable_request, root_request, urls_request, role_request,
  flag_request, finish, set_role, set_urls, set_root, set_ttl, enable_pki_client_ca,
}
use service_identity_provide.ClientCa.Plan.{token_in}

-- The certificate that is returned, by the read of the root token: the root's own, or none.
abbrev pub Kept : Result Secret → String → String → Type 0
Kept (ok s) root r = r ≡ root
Kept (err e) root r = r ≡ ""

module _ (c : Cluster) (path : String) where
  -- What Vault answers to the request for a root, and its states on the way to it.
  abbrev pub root_answer : InternalClientCa → c.Vault → Result String
  root_answer cr v = (c.vault_generate_root "internal" (root_request cr) path v).0

  abbrev pub tuned : c.Vault → c.Vault
  tuned v = (c.vault_tune_mount path client_ca_ttl v).1

  abbrev pub enabled : c.Vault → c.Vault
  enabled v = (c.vault_enable_engine path enable_request v).1

module _ (c : Cluster) (cr : InternalClientCa) (path : String) (reply : Result Secret) where
  -- The last requests: the root token is read, and where it could be read and the URL of the role
  -- is valid, the role is patched with it.
  abbrev pub patched : Result Secret → Bool → List Call → List Call
  patched (ok s) true before =
      Call.send_http (flag_request path client_ca_role (token_in (ok s))) ∷ before
  patched (ok s) false before = before
  patched (err e) valid before = before

  abbrev pub ReadSent : List Call → List Call → Type 0
  ReadSent before after =
      after
      ≡ patched reply (c.accepts_url (flag_request path client_ca_role "").url)
          (Call.get_secret (root_token_key c) ∷ before)

  abbrev ReturnsAfter : String → List Call → Outcome String → World c.Kube c.Vault → Type 0
  ReturnsAfter root before o w =
      (r : String) → o ≡ returned r → Kept reply root r × ReadSent before w.trace

  abbrev pub Answers : World c.Kube c.Vault → Type 0
  Answers w = (c.kube_get_secret (root_token_key c) w.kube).0 ≡ reply

  finish-returned :
      (root : String) (w : World c.Kube c.Vault)
      → Answers w
      → ReturnsAfter root w.trace (finish c path root w).0 (finish c path root w).1
  unfolding finish
  finish-returned root w e r h = rw (← e) (ground arith)

  set_role-returned :
      (root : String) (w : World c.Kube c.Vault)
      → Answers w
      → ReturnsAfter root
          (Call.write_role client_ca_role role_request path ∷ w.trace)
          (set_role c path root w).0
          (set_role c path root w).1
  unfolding set_role
  set_role-returned root w e =
      vault_rule (ReturnsAfter root (Call.write_role client_ca_role role_request path ∷ w.trace))
        (Call.write_role client_ca_role role_request path)
        (c.vault_write_role client_ca_role role_request path) (λ _. finish c path root) w
        (λ _ _. finish-returned root _ e, λ x _ r h. cc)

  abbrev pub role_trace : List Call → List Call
  role_trace before =
      Call.write_role client_ca_role role_request path
      ∷ Call.configure_urls (urls_request path) path
      ∷ before

  set_urls-returned :
      (root : String) (w : World c.Kube c.Vault)
      → Answers w
      → ReturnsAfter root (role_trace w.trace) (set_urls c path root w).0 (set_urls c path root w).1
  unfolding set_urls
  set_urls-returned root w e =
      vault_rule (ReturnsAfter root (role_trace w.trace))
        (Call.configure_urls (urls_request path) path)
        (c.vault_configure_urls (urls_request path) path) (λ _. set_role c path root) w
        (λ _ _. set_role-returned root _ e, λ x _ r h. cc)

  -- The requests up to the role, newest first.
  abbrev pub root_trace : List Call → List Call
  root_trace before = role_trace (Call.generate_root "internal" (root_request cr) path ∷ before)

  abbrev RootReturns : Result String → List Call → Outcome String → World c.Kube c.Vault → Type 0
  RootReturns answer before o w =
      (r : String)
      → o ≡ returned r
      → (root : String) × (answer ≡ ok root) × Kept reply root r × ReadSent before w.trace

  set_root-returned :
      (w : World c.Kube c.Vault)
      → Answers w
      → RootReturns
          (root_answer c path cr w.vault)
          (root_trace w.trace)
          (set_root c cr path w).0
          (set_root c cr path w).1
  unfolding set_root
  set_root-returned w e =
      vault_rule (RootReturns (root_answer c path cr w.vault) (root_trace w.trace))
        (Call.generate_root "internal" (root_request cr) path)
        (c.vault_generate_root "internal" (root_request cr) path) (set_urls c path) w
        (
          λ root made r h.
              let (kept, sent) = set_urls-returned root _ e r h in (root, made, kept, sent),
          λ x _ r h. cc,
        )

  set_ttl-returned :
      (w : World c.Kube c.Vault)
      → Answers w
      → RootReturns
          (root_answer c path cr (tuned c path w.vault))
          (root_trace (Call.tune_mount path client_ca_ttl ∷ w.trace))
          (set_ttl c cr path w).0
          (set_ttl c cr path w).1
  unfolding set_ttl
  set_ttl-returned w e =
      vault_rule
        (RootReturns (root_answer c path cr (tuned c path w.vault))
          (root_trace (Call.tune_mount path client_ca_ttl ∷ w.trace)))
        (Call.tune_mount path client_ca_ttl) (c.vault_tune_mount path client_ca_ttl)
        (λ _. set_root c cr path) w (λ _ _. set_root-returned _ e, λ x _ r h. cc)

  -- A setup that returns a certificate has sent all of its plan, and Vault has made a root. If the
  -- root token could be read, then the last request, the patch of the role with that token, was sent
  -- exactly if its URL is valid, and the certificate is the root's. If it could not, the patch was
  -- not sent, and the setup returns an empty certificate, and no error.
  pub setup-returned :
      (w : World c.Kube c.Vault) (r : String)
      → Answers w
      → (enable_pki_client_ca c cr path w).0 ≡ returned r
      → (root : String) × (root_answer c path cr (tuned c path (enabled c path w.vault)) ≡ ok root)
        × Kept reply root r
        × ReadSent
            (root_trace (
              Call.tune_mount path client_ca_ttl
              ∷ Call.enable_engine path enable_request
              ∷ w.trace))
            (enable_pki_client_ca c cr path w).1.trace
  unfolding enable_pki_client_ca
  setup-returned w r e =
      vault_rule
        (RootReturns (root_answer c path cr (tuned c path (enabled c path w.vault))) (
          root_trace (
            Call.tune_mount path client_ca_ttl ∷ Call.enable_engine path enable_request ∷ w.trace)))
        (Call.enable_engine path enable_request) (c.vault_enable_engine path enable_request)
        (λ _. set_ttl c cr path) w (λ _ _. set_ttl-returned _ e, λ x _ r' h. cc) r
