-- ===== src/Cert/Requests.antt =====
-- Which requests a reconciliation sends, in any cluster: nothing is assumed of the services.
use service_identity_provide.Base.{
  String, ◌<>◌, ◌+◌, ◌≤◌, ◌≡◌, ◌⊎◌, inl, inr, refl, true, false, List, [], ◌∷◌, arith, Bool-cases,
  if_elim, ap, sym, ◌∙◌,
}
use service_identity_provide.Base.Lists.{Every, count_if}
use service_identity_provide.Objects.{
  NamespacedName, Secret, Result, ok, err, is_already_exists, is_not_found,
}
use service_identity_provide.Resources.Certificates.{InternalCertificate}
use service_identity_provide.Cluster.{
  Cluster, Issued, IssueRequest, World, returned, Call, is_issue, is_setup, is_secret_write, lift,
  try, ok_of_returned,
}
use service_identity_provide.Cluster.Api.{Go, create_secret, get_secret}
use service_identity_provide.Cluster.Rules.{bind-Every}
use service_identity_provide.Cert.Reconciler.{
  secret_key, issue_request, client_mount, secret_literal, build_secret_from, after_client_create,
  write_client, store_client, issue_client, provide_client, issue_server, store_server,
  provide_server, after_client_get, after_server_get, reconcile_client, reconcile_server,
  reconcile_loaded, reconcile,
}

-- How far two traces differ.
abbrev pub Bounded : List Call → List Call → Type 0
Bounded before after = record {
  issues : count_if is_issue after ≤ count_if is_issue before + 1;
  writes : count_if is_secret_write after ≤ count_if is_secret_write before + 2;
  setups : count_if is_setup after ≡ count_if is_setup before;
  issue_first :
      count_if is_issue after ≡ count_if is_issue before
      → count_if is_secret_write after ≡ count_if is_secret_write before;
}

-- The certificate text that belongs into the Secret of a resource.
abbrev pub Chained : InternalCertificate → Issued → String → Type 0
Chained cr resp cert =
    let client = cr.spec.certificate.extended_key_usage.client_auth in
    (client ≡ true) × (cert ≡ resp.certificate)
    ⊎ (client ≡ false)
      × ((ca : String) × (rest : List String) × (resp.ca_chain ≡ ca ∷ rest)
          × (cert ≡ resp.certificate <> ("\n" <> ca)))

module _ (c : Cluster) where
  -- Whatever the services answer, one call of Reconcile asks for at most one certificate, writes at
  -- most twice, sets nothing up in Vault, and writes nothing where it asked for no certificate.
  pub reconcile-Bounded :
      (req : NamespacedName) (w : World c.Kube c.Vault)
      → Bounded w.trace (reconcile c req w).1.trace
  unfolding reconcile
  reconcile-Bounded req w = ground arith

  -- A Secret made for the resource from a certificate that Vault issued.
  abbrev pub MadeFrom : InternalCertificate → Issued → Secret → Type 0
  MadeFrom cr resp s =
      (cert : String) × Chained cr resp cert
      × (c.set_controller_reference "InternalCertificate" cr.meta (secret_literal cr resp cert)
          ≡ ok s)

  abbrev pub IssueCall : InternalCertificate → String → IssueRequest → String → Type 0
  IssueCall cr role r mount =
      (r ≡ issue_request cr.spec.certificate.subject.cn)
      × ((cr.spec.certificate.extended_key_usage.client_auth ≡ true)
            × (role ≡ "client-ca")
            × (mount ≡ client_mount cr)
          ⊎ (cr.spec.certificate.extended_key_usage.client_auth ≡ false)
            × (cr.spec.certificate.extended_key_usage.server_auth ≡ true)
            × (role ≡ "interm-ca")
            × (mount ≡ "sip-interm-ca"))

  -- What Vault, in one of its states, answers to the request for the resource.
  abbrev pub IssuedFor : c.Vault → InternalCertificate → Issued → Type 0
  IssuedFor v cr resp =
      let r = issue_request cr.spec.certificate.subject.cn in
      (cr.spec.certificate.extended_key_usage.client_auth ≡ true)
        × ((c.vault_issue_with_role "client-ca" r (client_mount cr) v).0 ≡ ok resp)
      ⊎ (cr.spec.certificate.extended_key_usage.client_auth ≡ false)
        × ((c.vault_issue_with_role "interm-ca" r "sip-interm-ca" v).0 ≡ ok resp)

  -- A Secret made from that answer.
  abbrev pub WrittenFrom : c.Vault → InternalCertificate → Secret → Type 0
  WrittenFrom v cr s = (resp : Issued) × IssuedFor v cr resp × MadeFrom cr resp s

  abbrev pub Permitted : c.Vault → String → InternalCertificate → Call → Type 0
  Permitted v namespace cr (Call.get_secret k) = k ≡ secret_key namespace cr
  Permitted v namespace cr (Call.issue_with_role role r mount) = IssueCall cr role r mount
  Permitted v namespace cr (Call.create_secret s) = WrittenFrom v cr s
  Permitted v namespace cr (Call.update_secret s) = WrittenFrom v cr s
  Permitted v namespace cr _ = ⊥

  pub build_secret_from-MadeFrom :
      (cr : InternalCertificate) (resp : Issued) (s : Secret)
      → build_secret_from c cr resp ≡ returned s
      → MadeFrom cr resp s
  unfolding build_secret_from
  build_secret_from-MadeFrom cr resp s h = elim (Bool-cases client_auth) [
    | inl client ↦ (resp.certificate, inl (client, refl), ground arith)
    | inr server ↦ chained server resp.ca_chain refl
  ]
    where
      open cr.spec.certificate.extended_key_usage use {client_auth}

      chained :
          client_auth ≡ false → (chain : List String) → resp.ca_chain ≡ chain → MadeFrom cr resp s
      chained server [] e = absurd (ground arith)
      chained server (ca ∷ rest) e =
          (resp.certificate <> ("\n" <> ca), inr (server, (ca, rest, e, refl)), ground arith)

  module _ (v : c.Vault) (namespace : String) (cr : InternalCertificate) where
    abbrev pub Good : World c.Kube c.Vault → Type 0
    Good w = Every (Permitted v namespace cr) w.trace

    abbrev request : IssueRequest
    request = issue_request cr.spec.certificate.subject.cn

    abbrev GoodAfter : World c.Kube c.Vault → Go c (Unit {0}) → Type 0
    GoodAfter w m = Good (m w).1

    after_client_create-Permitted :
        (s : Secret) (reply : Result (Unit {0})) (w : World c.Kube c.Vault)
        → WrittenFrom v cr s
        → Good w
        → Good (after_client_create c s reply w).1
    unfolding after_client_create
    after_client_create-Permitted s (ok _) w made old = old
    after_client_create-Permitted s (err e) w made old =
        if_elim (GoodAfter w) (is_already_exists e) (λ _. (made, old)) (λ _. old)

    write_client-Permitted :
        (s : Secret) (w : World c.Kube c.Vault)
        → WrittenFrom v cr s
        → Good w
        → Good (write_client c s w).1
    unfolding write_client
    write_client-Permitted s w made old =
        bind-Every (Permitted v namespace cr) (try (create_secret c s)) (after_client_create c s) w
          (made, old) λ reply _. after_client_create-Permitted s reply _ made (made, old)

    provide_client-Permitted :
        (w : World c.Kube c.Vault)
        → cr.spec.certificate.extended_key_usage.client_auth ≡ true
        → w.vault ≡ v
        → Good w
        → Good (provide_client c cr w).1
    unfolding provide_client
    provide_client-Permitted w client same old =
        bind-Every _ (issue_client c cr) (store_client c cr) w
          ((refl, inl (client, refl, refl)), old)
          λ resp issued.
            bind-Every _ (lift (build_secret_from c cr resp)) (write_client c) _
              ((refl, inl (client, refl, refl)), old)
              λ secret built.
                write_client-Permitted secret _
                  (
                    resp,
                    inl (
                      client,
                      ap (λ x. (c.vault_issue_with_role "client-ca" request (client_mount cr) x).0)
                            (sym same)
                          ∙ ok_of_returned _ issued,
                    ),
                    build_secret_from-MadeFrom cr resp secret built,
                  )
                  ((refl, inl (client, refl, refl)), old)

    provide_server-Permitted :
        (w : World c.Kube c.Vault)
        → cr.spec.certificate.extended_key_usage.client_auth ≡ false
        → cr.spec.certificate.extended_key_usage.server_auth ≡ true
        → w.vault ≡ v
        → Good w
        → Good (provide_server c cr w).1
    unfolding provide_server
    provide_server-Permitted w no_client server same old =
        bind-Every _ (issue_server c cr) (store_server c cr) w
          ((refl, inr (no_client, server, refl, refl)), old)
          λ resp issued.
            bind-Every _ (lift (build_secret_from c cr resp)) (create_secret c) _
              ((refl, inr (no_client, server, refl, refl)), old)
              λ secret built. (
                (
                  resp,
                  inr (
                    no_client,
                    ap (λ x. (c.vault_issue_with_role "interm-ca" request "sip-interm-ca" x).0)
                          (sym same)
                        ∙ ok_of_returned _ issued,
                  ),
                  build_secret_from-MadeFrom cr resp secret built,
                ),
                ((refl, inr (no_client, server, refl, refl)), old),
              )

    after_client_get-Permitted :
        (found : Result Secret) (w : World c.Kube c.Vault)
        → cr.spec.certificate.extended_key_usage.client_auth ≡ true
        → w.vault ≡ v
        → Good w
        → Good (after_client_get c cr found w).1
    unfolding after_client_get
    after_client_get-Permitted (ok _) w client same old = old
    after_client_get-Permitted (err e) w client same old =
        provide_client-Permitted w client same old

    after_server_get-Permitted :
        (found : Result Secret) (w : World c.Kube c.Vault)
        → cr.spec.certificate.extended_key_usage.client_auth ≡ false
        → cr.spec.certificate.extended_key_usage.server_auth ≡ true
        → w.vault ≡ v
        → Good w
        → Good (after_server_get c cr found w).1
    unfolding after_server_get
    after_server_get-Permitted (ok _) w no_client server same old = old
    after_server_get-Permitted (err e) w no_client server same old =
        if_elim (GoodAfter w) (is_not_found e)
          (λ _. provide_server-Permitted w no_client server same old) (λ _. old)

    reconcile_client-Permitted :
        (w : World c.Kube c.Vault)
        → cr.spec.certificate.extended_key_usage.client_auth ≡ true
        → w.vault ≡ v
        → Good w
        → Good (reconcile_client c namespace cr w).1
    unfolding reconcile_client
    reconcile_client-Permitted w client same old =
        bind-Every _ (try (get_secret c (secret_key namespace cr))) (after_client_get c cr) w
          (refl, old) λ found _. after_client_get-Permitted found _ client same (refl, old)

    reconcile_server-Permitted :
        (w : World c.Kube c.Vault)
        → cr.spec.certificate.extended_key_usage.client_auth ≡ false
        → cr.spec.certificate.extended_key_usage.server_auth ≡ true
        → w.vault ≡ v
        → Good w
        → Good (reconcile_server c namespace cr w).1
    unfolding reconcile_server
    reconcile_server-Permitted w no_client server same old =
        bind-Every _ (try (get_secret c (secret_key namespace cr))) (after_server_get c cr) w
          (refl, old)
          λ found _. after_server_get-Permitted found _ no_client server same (refl, old)

  -- Whatever the services answer, each request of a run for the resource is permitted: it reads
  -- the Secret of the resource, asks the one role and mount that belong to its usage for a
  -- certificate, or writes a Secret made for it from what Vault answered to that request, in the
  -- state in which the run found it.
  pub reconcile_loaded-Permitted :
      (namespace : String) (cr : InternalCertificate) (w : World c.Kube c.Vault)
      → Good w.vault namespace cr w
      → Good w.vault namespace cr (reconcile_loaded c namespace cr w).1
  unfolding reconcile_loaded
  reconcile_loaded-Permitted namespace cr w old =
      if_elim (GoodAfter w.vault namespace cr w) client_auth
        (λ client. reconcile_client-Permitted w.vault namespace cr w client refl old)
        (λ no_client.
          if_elim (GoodAfter w.vault namespace cr w) server_auth
            (λ server. reconcile_server-Permitted w.vault namespace cr w no_client server refl old)
            (λ _. old))
    where
      open cr.spec.certificate.extended_key_usage use {client_auth, server_auth}
