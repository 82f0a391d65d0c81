-- ===== src/Cert/Provision.antt =====
-- What a reconciliation leaves in a cluster that keeps the documented laws.
use service_identity_provide.Base.{◌≡◌, ◌⊎◌, inl, inr, refl, ◌∙◌, ap, if_elim, if◌then◌else◌}
use service_identity_provide.Objects.{Secret, Result, ok, err, is_already_exists}
use service_identity_provide.Resources.Certificates.{InternalCertificate}
use service_identity_provide.Cluster.{
  Cluster, Issued, Call, World, Outcome, returned, outcome_of, ok_of_returned, lift,
}
use service_identity_provide.Cluster.Api.{Go, create_secret}
use service_identity_provide.Cluster.Laws.{KubeLaws, Secrets, put, written}
use service_identity_provide.Cluster.Rules.{Stops, bind_rule, try_kube_rule}
use service_identity_provide.Cert.Reconciler.{
  issue_request, client_mount, build_secret_from, after_client_create, write_client, store_client,
  issue_client, provide_client, issue_server, store_server, provide_server,
}
use service_identity_provide.Cert.Requests.{MadeFrom, build_secret_from-MadeFrom}

module _ (c : Cluster) (L : KubeLaws c) where
  abbrev pub secrets_in : World c.Kube c.Vault → Secrets
  secrets_in w = L.secrets w.kube

  -- A Secret made from the answer of Vault was put in, and nothing else changed.
  abbrev pub Provisioned : InternalCertificate → Result Issued → Secrets → Secrets → Type 0
  Provisioned cr answer before after =
      (resp : Issued) × (answer ≡ ok resp)
      × ((s : Secret) × MadeFrom c cr resp s × (after ≡ put s before))

  -- The run stopped with an error or a panic and left the Secrets alone, or it succeeded and the
  -- resource is provisioned.
  abbrev pub Effect :
      InternalCertificate → Result Issued → Secrets → Outcome (Unit {0}) → Secrets → Type 0
  Effect cr answer before o after =
      Stops o × (after ≡ before) ⊎ (o ≡ returned tt) × Provisioned cr answer before after

  pub Effect-returned :
      (cr : InternalCertificate) (answer : Result Issued) (before : Secrets)
      (o : Outcome (Unit {0})) (after : Secrets)
      → Effect cr answer before o after
      → o ≡ returned tt
      → Provisioned cr answer before after
  Effect-returned cr answer before o after (inl (stopped, same)) done = absurd (rw done at stopped)
  Effect-returned cr answer before o after (inr (_, provisioned)) done = provisioned

  module _ (cr : InternalCertificate) (answer : Result Issued) (before : Secrets) where
    abbrev pub Done : Outcome (Unit {0}) → World c.Kube c.Vault → Type 0
    Done o w = Effect cr answer before o (secrets_in w)

    written-Effect :
        (resp : Issued) (s : Secret) (r : Result (Unit {0})) (after : Secrets)
        → answer ≡ ok resp
        → MadeFrom c cr resp s
        → after ≡ written s r before
        → Effect cr answer before (outcome_of r) after
    written-Effect resp s (ok _) after issued made e = inr (refl, (resp, issued, (s, made, e)))
    written-Effect resp s (err x) after issued made e = inl (tt, e)

    create-Done :
        (resp : Issued) (s : Secret) (w : World c.Kube c.Vault)
        → answer ≡ ok resp
        → MadeFrom c cr resp s
        → secrets_in w ≡ before
        → Done (create_secret c s w).0 (create_secret c s w).1
    create-Done resp s w issued made same =
        written-Effect resp s reply _ issued made
          (L.create_writes s w.kube ∙ ap (written s reply) same)
      where
        reply : Result (Unit {0})
        reply = (c.kube_create_secret s w.kube).0

    after_client_create-Done :
        (resp : Issued) (s : Secret) (r : Result (Unit {0})) (w : World c.Kube c.Vault)
        → answer ≡ ok resp
        → MadeFrom c cr resp s
        → secrets_in w ≡ written s r before
        → Done (after_client_create c s r w).0 (after_client_create c s r w).1
    unfolding after_client_create
    after_client_create-Done resp s (ok _) w issued made same =
        inr (refl, (resp, issued, (s, made, same)))
    after_client_create-Done resp s (err e) w issued made same =
        if_elim (λ (m : Go c (Unit {0})). Done (m w).0 (m w).1) (is_already_exists e)
          (λ _.
            written-Effect resp s reply _ issued made
              (L.update_writes s w.kube ∙ ap (written s reply) same))
          (λ _. inl (tt, same))
      where
        reply : Result (Unit {0})
        reply = (c.kube_update_secret s w.kube).0

    write_client-Done :
        (resp : Issued) (s : Secret) (w : World c.Kube c.Vault)
        → answer ≡ ok resp
        → MadeFrom c cr resp s
        → secrets_in w ≡ before
        → Done (write_client c s w).0 (write_client c s w).1
    unfolding write_client
    write_client-Done resp s w issued made same =
        try_kube_rule Done (Call.create_secret s) (c.kube_create_secret s) (after_client_create c s)
          w
          (after_client_create-Done resp s reply _ issued made
            (L.create_writes s w.kube ∙ ap (written s reply) same))
      where
        reply : Result (Unit {0})
        reply = (c.kube_create_secret s w.kube).0

  -- What Vault answers to the request for a resource.
  abbrev pub client_answer : InternalCertificate → c.Vault → Result Issued
  client_answer cr v =
      (c.vault_issue_with_role "client-ca" (issue_request cr.spec.certificate.subject.cn)
        (client_mount cr) v).0

  abbrev pub server_answer : InternalCertificate → c.Vault → Result Issued
  server_answer cr v =
      (c.vault_issue_with_role "interm-ca" (issue_request cr.spec.certificate.subject.cn)
        "sip-interm-ca" v).0

  abbrev pub answer_to : InternalCertificate → c.Vault → Result Issued
  answer_to cr v =
      if cr.spec.certificate.extended_key_usage.client_auth
      then client_answer cr v
      else server_answer cr v

  module _ (cr : InternalCertificate) (w : World c.Kube c.Vault) where
    abbrev pub before : Secrets
    before = secrets_in w

    store_client-Done :
        (answer : Result Issued) (resp : Issued) (w' : World c.Kube c.Vault)
        → answer ≡ ok resp
        → secrets_in w' ≡ before
        → Done cr answer before (store_client c cr resp w').0 (store_client c cr resp w').1
    unfolding store_client
    store_client-Done answer resp w' issued same =
        bind_rule (Done cr answer before) (lift (build_secret_from c cr resp)) (write_client c) w'
          (λ s built.
            write_client-Done cr answer before resp s w' issued
              (build_secret_from-MadeFrom c cr resp s built) same)
          (λ _ stopped. inl (stopped, same))

    store_server-Done :
        (answer : Result Issued) (resp : Issued) (w' : World c.Kube c.Vault)
        → answer ≡ ok resp
        → secrets_in w' ≡ before
        → Done cr answer before (store_server c cr resp w').0 (store_server c cr resp w').1
    unfolding store_server
    store_server-Done answer resp w' issued same =
        bind_rule (Done cr answer before) (lift (build_secret_from c cr resp)) (create_secret c) w'
          (λ s built.
            create-Done cr answer before resp s w' issued
              (build_secret_from-MadeFrom c cr resp s built) same)
          (λ _ stopped. inl (stopped, same))

    pub provide_client-Done :
        (w' : World c.Kube c.Vault)
        → secrets_in w' ≡ before
        → Done cr
            (client_answer cr w'.vault)
            before
            (provide_client c cr w').0
            (provide_client c cr w').1
    unfolding provide_client
    provide_client-Done w' same =
        bind_rule (Done cr (client_answer cr w'.vault) before) (issue_client c cr)
          (store_client c cr) w'
          (λ resp issued.
            store_client-Done _ resp (issue_client c cr w').1
              (ok_of_returned (client_answer cr w'.vault) issued) same)
          (λ _ stopped. inl (stopped, same))

    pub provide_server-Done :
        (w' : World c.Kube c.Vault)
        → secrets_in w' ≡ before
        → Done cr
            (server_answer cr w'.vault)
            before
            (provide_server c cr w').0
            (provide_server c cr w').1
    unfolding provide_server
    provide_server-Done w' same =
        bind_rule (Done cr (server_answer cr w'.vault) before) (issue_server c cr)
          (store_server c cr) w'
          (λ resp issued.
            store_server-Done _ resp (issue_server c cr w').1
              (ok_of_returned (server_answer cr w'.vault) issued) same)
          (λ _ stopped. inl (stopped, same))
