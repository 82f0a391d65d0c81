-- ===== src/Cert/Outcome.antt =====
-- The results of `Reconcile`, by what the API server answers.
use service_identity_provide.Base.{
  String, ◌≡◌, ◌≢◌, refl, sym, subst, ◌∙◌, true, false, ◌∷◌, arith, if_elim,
}
use service_identity_provide.Objects.{
  NamespacedName, Secret, Error, not_found, already_exists, invalid, other, Result, ok, err,
}
use service_identity_provide.Resources.Certificates.{InternalCertificate}
use service_identity_provide.Cluster.{Cluster, Call, World, Outcome, returned}
use service_identity_provide.Cluster.Api.{Go}
use service_identity_provide.Cluster.Laws.{KubeLaws}
use service_identity_provide.Cluster.Rules.{try_kube_rule}
use service_identity_provide.Cert.Reconciler.{
  secret_key, after_client_get, after_server_get, reconcile_client, reconcile_server,
  reconcile_loaded,
}
use service_identity_provide.Cert.Provision.{
  secrets_in, Provisioned, Effect, Effect-returned, client_answer, server_answer, answer_to,
  provide_client-Done, provide_server-Done,
}

module _ (c : Cluster) (L : KubeLaws c) (cr : InternalCertificate) where
  open cr.spec.certificate.extended_key_usage use {client_auth, server_auth}

  answer_to_client :
      (v : c.Vault) → client_auth ≡ true → answer_to c L cr v ≡ client_answer c L cr v
  answer_to_client v h = simp h

  answer_to_server :
      (v : c.Vault) → client_auth ≡ false → answer_to c L cr v ≡ server_answer c L cr v
  answer_to_server v h = simp h

  pub loaded_client :
      (namespace : String)
      → client_auth ≡ true
      → reconcile_loaded c namespace cr ≡ reconcile_client c namespace cr
  unfolding reconcile_loaded
  loaded_client namespace h = simp h

  module _ (namespace : String) (w : World c.Kube c.Vault) where
    abbrev pub GetReply : Result Secret
    GetReply = (c.kube_get_secret (secret_key namespace cr) w.kube).0

    abbrev pub RunEffect : Outcome (Unit {0}) → World c.Kube c.Vault → Type 0
    RunEffect o w' =
        Effect c L cr (answer_to c L cr w.vault) (secrets_in c L w) o (secrets_in c L w')

    pub reconcile_client-provides :
        (e : Error)
        → client_auth ≡ true
        → GetReply ≡ err e
        → RunEffect (reconcile_client c namespace cr w).0 (reconcile_client c namespace cr w).1
    unfolding reconcile_client after_client_get
    reconcile_client-provides e client failure =
        try_kube_rule RunEffect (Call.get_secret key) (c.kube_get_secret key)
          (after_client_get c cr) w
          (rw (failure, after_client_get, answer_to_client w.vault client)
            (provide_client-Done c L cr w _ (L.get_secret_keeps key w.kube)))
      where
        key : NamespacedName
        key = secret_key namespace cr

    reconcile_server-provides :
        client_auth ≡ false
        → GetReply ≡ err not_found
        → RunEffect (reconcile_server c namespace cr w).0 (reconcile_server c namespace cr w).1
    unfolding reconcile_server after_server_get
    reconcile_server-provides no_client missing =
        try_kube_rule RunEffect (Call.get_secret key) (c.kube_get_secret key)
          (after_server_get c cr) w
          (rw (missing, after_server_get, answer_to_server w.vault no_client)
            (provide_server-Done c L cr w _ (L.get_secret_keeps key w.kube)))
      where
        key : NamespacedName
        key = secret_key namespace cr

    -- The resource has exactly one of the two usages, and its Secret is reported missing: either
    -- the run stops with an error or a panic and every Secret is as before, or it succeeds, Vault
    -- answered its request, and the one change is that a Secret made from the answer is there.
    pub reconcile_loaded-provides :
        client_auth ≢ server_auth
        → GetReply ≡ err not_found
        → RunEffect (reconcile_loaded c namespace cr w).0 (reconcile_loaded c namespace cr w).1
    unfolding reconcile_loaded
    reconcile_loaded-provides accepted missing =
        if_elim (λ (m : Go c (Unit {0})). RunEffect (m w).0 (m w).1) client_auth
          (λ client. reconcile_client-provides not_found client missing)
          (λ no_client.
            if_elim (λ (m : Go c (Unit {0})). RunEffect (m w).0 (m w).1) server_auth
              (λ _. reconcile_server-provides no_client missing)
              (λ no_server. absurd (accepted (no_client ∙ sym no_server))))

    -- A client resource whose Secret could not be read for any reason, a passing failure
    -- included: a run that succeeds has replaced whatever Secret was there by a new key pair.
    pub reconcile-client_read_failure :
        (e : Error)
        → client_auth ≡ true
        → GetReply ≡ err e
        → (reconcile_loaded c namespace cr w).0 ≡ returned tt
        → Provisioned c L cr
            (client_answer c L cr w.vault)
            (secrets_in c L w)
            (secrets_in c L (reconcile_loaded c namespace cr w).1)
    unfolding reconcile_loaded
    reconcile-client_read_failure e client failure done = rw (← answer_to_client w.vault client) (
        Effect-returned c L cr _ _ _ _
          (subst (λ m. RunEffect (m w).0 (m w).1) (sym (loaded_client namespace client))
            (reconcile_client-provides e client failure))
          done)

    -- A server resource whose Secret cannot be read, for another reason than that it is missing:
    -- the run reports success, having sent one request and stored nothing.
    pub reconcile-server_read_failure :
        (e : Error)
        → client_auth ≡ false
        → server_auth ≡ true
        → GetReply ≡ err e
        → e ≢ not_found
        → let (o, w') = reconcile_loaded c namespace cr w in
          (o ≡ returned tt)
          × (secrets_in c L w' ≡ secrets_in c L w)
          × (w'.trace ≡ Call.get_secret (secret_key namespace cr) ∷ w.trace)
    unfolding reconcile_loaded
    reconcile-server_read_failure e no_client server failure differs =
        ground (arith, L.get_secret_keeps (secret_key namespace cr) w.kube)

    -- The run read the Secret, sent nothing else, and left every Secret as it was.
    abbrev pub Passed : World c.Kube c.Vault → Type 0
    Passed w' =
        (secrets_in c L w' ≡ secrets_in c L w)
        × (w'.trace ≡ Call.get_secret (secret_key namespace cr) ∷ w.trace)

    -- What a success of a server resource stands for, by the answer to the read of its Secret.
    abbrev pub Succeeded : Result Secret → World c.Kube c.Vault → Type 0
    Succeeded (ok s) w' = Passed w'
    Succeeded (err not_found) w' =
        Provisioned c L cr (server_answer c L cr w.vault) (secrets_in c L w) (secrets_in c L w')
    Succeeded (err already_exists) w' = Passed w'
    Succeeded (err invalid) w' = Passed w'
    Succeeded (err (other text)) w' = Passed w'

    -- A run for a server resource that reports success has either found the Secret, or issued and
    -- stored a new one because it was reported missing, or the read failed in another way: then the
    -- read was its one request and no Secret has changed, as if there were one.
    pub reconcile-server_success :
        client_auth ≡ false
        → server_auth ≡ true
        → (reconcile_loaded c namespace cr w).0 ≡ returned tt
        → Succeeded GetReply (reconcile_loaded c namespace cr w).1
    unfolding reconcile_loaded
    reconcile-server_success no_client server done = by GetReply refl
      where
        found : (s : Secret) → GetReply ≡ ok s → Passed (reconcile_loaded c namespace cr w).1
        found s e = ground (arith, L.get_secret_keeps (secret_key namespace cr) w.kube)

        by : (r : Result Secret) → GetReply ≡ r → Succeeded r (reconcile_loaded c namespace cr w).1
        by (ok s) e = found s e
        by (err not_found) e =
            rw (← answer_to_server w.vault no_client)
              (Effect-returned c L cr _ _ _ _ (reconcile_loaded-provides (λ same. cc) e) done)
        by (err already_exists) e =
            let (_, same, sent) =
              reconcile-server_read_failure already_exists no_client server e (λ h. cc) in
            (same, sent)
        by (err invalid) e =
            let (_, same, sent) =
              reconcile-server_read_failure invalid no_client server e (λ h. cc) in
            (same, sent)
        by (err (other text)) e =
            let (_, same, sent) =
              reconcile-server_read_failure (other text) no_client server e (λ h. cc) in
            (same, sent)
