-- ===== src/Bootstrap/Outcome.antt =====
-- What the TLS job leaves in Kubernetes, by how it ends.
use service_identity_provide.Base.{arith, String, some, ◌≡◌, refl, ◌∙◌, ap, subst, sym}
use service_identity_provide.Base.Fields.{
  Fields, assign, field?, field?-assign, field?-assign_other, merge,
}
use service_identity_provide.Objects.{NamespacedName, SigningRequest, Result, ok, err}
use service_identity_provide.Cluster.{
  Cluster, World, Outcome, returned, failed, panicked, exited, outcome_of, fatal_outcome, ◌>>=◌,
  lift, or_fatal,
}
use service_identity_provide.Cluster.Api.{Go, get_csr, delete_csr, update_approval}
use service_identity_provide.Cluster.Laws.{KubeLaws, Secrets, stored}
use service_identity_provide.Cluster.Rules.{Stops, bind_rule}
use service_identity_provide.Persist.{creating, persist_from}
use service_identity_provide.Persist.Stored.{Held, Only, Ended, persist_from-Ended}
use service_identity_provide.Bootstrap.Job.{
  request_template, csr_to_k8s, approved, tls_secret, set_pair, issue, store_pair, fetch, approve,
  get_and_approve, request_certificate, with_key, marshal, main,
}

ok_of_fatal :
    {A : Type 0} (r : Result A) {a : A} → fatal_outcome (outcome_of r) ≡ returned a → r ≡ ok a
ok_of_fatal (ok _) h = cc
ok_of_fatal (err _) h = cc

module _ (c : Cluster) (L : KubeLaws c) (namespace cluster_name : String) where
  -- The data of a Secret is the certificate and the key.
  abbrev pub HasPair : String → String → Fields → Type 0
  HasPair cert key d = (field? d "vault.crt" ≡ some cert) × (field? d "vault.key" ≡ some key)

  abbrev pub tls_key : NamespacedName
  tls_key = record { namespace = namespace; name = "vault-ha-tls" }

  changed-HasPair : (cert key : String) (d : Fields) → HasPair cert key (set_pair cert key d)
  changed-HasPair cert key d = (
    field?-assign_other (assign d "vault.crt" cert) "vault.key" key "vault.crt" refl
        ∙ field?-assign d "vault.crt" cert,
    field?-assign (assign d "vault.crt" cert) "vault.key" key,
  )

  literal-HasPair :
      (cert key : String) → HasPair cert key (stored (tls_secret namespace cert key)).data_fields
  unfolding merge field?
  literal-HasPair cert key = (refl, refl)

  -- No Secret but vault-ha-tls has changed.
  abbrev pub OnlyTls : Secrets → Secrets → Type 0
  OnlyTls before after = Only (λ _. Unit {0}) tls_key before after

  -- Where the certificate and the key of the Secret come from.
  abbrev pub Origin : Type 1
  Origin = String → String → Type 0

  abbrev pub Provided : Origin → Secrets → Outcome (Unit {0}) → Secrets → Type 0
  Provided from before (returned _) m =
      OnlyTls before m
      × ((cert : String) × (key : String) × from cert key × Held (HasPair cert key) tls_key m)
  Provided from before (failed _) m = OnlyTls before m
  Provided from before panicked m = OnlyTls before m
  Provided from before (exited _) m = OnlyTls before m

  -- The certificate is that of the request as it is read after the update that approved it, in the
  -- state of the API server that this update leaves; from the state after the request was made.
  abbrev pub CertAfter : c.Kube → SigningRequest → SigningRequest → Type 0
  CertAfter k first last =
      let (found, read) = c.kube_get_csr "vault.svc" k in
      let (accepted, updated) = c.kube_update_approval "vault.svc" (approved first) read in
      (found ≡ ok first) × (accepted ≡ ok tt) × ((c.kube_get_csr "vault.svc" updated).0 ≡ ok last)

  -- The key is encoded from the private key that was made, for which the signing request was
  -- created too.
  abbrev pub MadeIn : World c.Kube c.Vault → Origin
  MadeIn w cert key =
      (priv : String) × (der : String) × (request : String) × (first : SigningRequest)
      × (last : SigningRequest) × (c.generate_key ≡ ok priv)
      × (c.marshal_key priv ≡ ok der)
      × (key ≡ c.pem_encode "EC PRIVATE KEY" der)
      × (c.create_request (request_template namespace cluster_name) priv ≡ ok request)
      × CertAfter
          (issue c namespace cluster_name (csr_to_k8s (c.pem_encode "CERTIFICATE REQUEST" request))
            w).1.kube
          first last
      × (cert ≡ last.certificate)

  module _ (from : Origin) (before : Secrets) where
    abbrev pub Goes : Go c (Unit {0}) → World c.Kube c.Vault → Type 0
    Goes m w = Provided from before (m w).0 (L.secrets (m w).1.kube)

    stop-Provided :
        (o : Outcome (Unit {0})) (m : Secrets)
        → Stops o
        → OnlyTls before m
        → Provided from before o m
    stop-Provided (returned _) m s only = elim s [ ]
    stop-Provided (failed _) m s only = only
    stop-Provided panicked m s only = only
    stop-Provided (exited _) m s only = only

    -- A first part that leaves the Secrets alone.
    pub bind-Provided :
        {A : Type 0} (m : Go c A) (f : A → Go c (Unit {0})) (w : World c.Kube c.Vault)
        → L.secrets (m w).1.kube ≡ before
        → ((a : A) → (m w).0 ≡ returned a → Goes (f a) (m w).1)
        → Goes (m >>= f) w
    bind-Provided m f w same rest =
        bind_rule (λ o w'. Provided from before o (L.secrets w'.kube)) m f w rest
          (λ o s. stop-Provided o _ s (λ k e. ap (λ (n : Secrets). n k) same))

    deleted-Provided :
        (reply : Result (Unit {0})) (m : Secrets)
        → Provided from before (returned tt) m
        → Provided from before (fatal_outcome (outcome_of reply)) m
    deleted-Provided (ok _) m p = p
    deleted-Provided (err _) m p = p.0

    module _ (key : String) (r : SigningRequest) where
      abbrev Persisted : Outcome (Unit {0}) → Secrets → Type 0
      Persisted =
          Ended c L (HasPair r.certificate key) (tls_secret namespace r.certificate key)
            (set_pair r.certificate key) (changed-HasPair r.certificate key)
            (literal-HasPair r.certificate key) before

      returned-Provided :
          (o : Outcome (Unit {0})) (m : Secrets)
          → o ≡ returned tt
          → from r.certificate key
          → Persisted o m
          → Provided from before (returned tt) m
      returned-Provided (returned _) m e made (only, held) =
          (only, (r.certificate, key, made, held))
      returned-Provided (failed _) m e made only = cc
      returned-Provided panicked m e made only = cc
      returned-Provided (exited _) m e made only = cc

      Only-of-Persisted : (o : Outcome (Unit {0})) (m : Secrets) → Persisted o m → OnlyTls before m
      Only-of-Persisted (returned _) m (only, held) = only
      Only-of-Persisted (failed _) m only = only
      Only-of-Persisted panicked m only = only
      Only-of-Persisted (exited _) m only = only

    store_pair-Provided :
        (key : String) (r : SigningRequest) (w : World c.Kube c.Vault)
        → L.secrets w.kube ≡ before
        → from r.certificate key
        → Goes (store_pair c namespace cluster_name key r) w
    unfolding store_pair
    store_pair-Provided key r w same made =
        bind_rule (λ o w'. Provided from before o (L.secrets w'.kube)) persist
          (λ _. or_fatal (delete_csr c "vault.svc")) w
          (λ a e.
            subst
              (Provided from before
                (fatal_outcome (outcome_of (c.kube_delete_csr "vault.svc" (persist w).1.kube).0)))
              (sym (L.delete_csr_keeps "vault.svc" (persist w).1.kube))
              (deleted-Provided _ _ (returned-Provided key r (persist w).0 _ e made persisted)))
          (λ o s. stop-Provided o _ s (Only-of-Persisted key r (persist w).0 _ persisted))
      where
        persist : Go c (Unit {0})
        persist =
            persist_from c (tls_secret namespace r.certificate key) (set_pair r.certificate key) 3
              creating

        persisted : Persisted key r (persist w).0 (L.secrets (persist w).1.kube)
        persisted =
            persist_from-Ended c L (HasPair r.certificate key)
              (tls_secret namespace r.certificate key) (set_pair r.certificate key)
              (changed-HasPair r.certificate key) (literal-HasPair r.certificate key) before 3
              creating w tt (λ k e. ap (λ (n : Secrets). n k) same)

    fetch-Provided :
        (key : String) (w : World c.Kube c.Vault)
        → L.secrets w.kube ≡ before
        → ((r : SigningRequest)
            → (c.kube_get_csr "vault.svc" w.kube).0 ≡ ok r
            → from r.certificate key)
        → Goes (fetch c namespace cluster_name key) w
    unfolding fetch
    fetch-Provided key w same origin =
        bind-Provided (or_fatal (get_csr c "vault.svc")) (store_pair c namespace cluster_name key) w
          kept (λ r e. store_pair-Provided key r _ kept (origin r (ok_of_fatal _ e)))
      where
        kept : L.secrets (c.kube_get_csr "vault.svc" w.kube).1 ≡ before
        kept = L.get_csr_keeps "vault.svc" w.kube ∙ same

    -- The certificate is read in the state that an accepted update leaves.
    abbrev FromUpdate : String → SigningRequest → c.Kube → Type 0
    FromUpdate key first k =
        (last : SigningRequest)
        → (c.kube_update_approval "vault.svc" (approved first) k).0 ≡ ok tt
        → (c.kube_get_csr "vault.svc" (c.kube_update_approval "vault.svc" (approved first) k).1).0
          ≡ ok last
        → from last.certificate key

    approve-Provided :
        (key : String) (r : SigningRequest) (w : World c.Kube c.Vault)
        → L.secrets w.kube ≡ before
        → FromUpdate key r w.kube
        → Goes (approve c namespace cluster_name key r) w
    unfolding approve
    approve-Provided key r w same origin =
        bind-Provided (or_fatal (update_approval c "vault.svc" (approved r)))
          (λ _. fetch c namespace cluster_name key) w kept
          (λ _ e. fetch-Provided key _ kept (λ last. origin last (ok_of_fatal _ e)))
      where
        kept : L.secrets (c.kube_update_approval "vault.svc" (approved r) w.kube).1 ≡ before
        kept = L.update_approval_keeps "vault.svc" (approved r) w.kube ∙ same

    abbrev FromRequest : String → c.Kube → Type 0
    FromRequest key k =
        (first : SigningRequest)
        → (c.kube_get_csr "vault.svc" k).0 ≡ ok first
        → FromUpdate key first (c.kube_get_csr "vault.svc" k).1

    get_and_approve-Provided :
        (key : String) (w : World c.Kube c.Vault)
        → L.secrets w.kube ≡ before
        → FromRequest key w.kube
        → Goes (get_and_approve c namespace cluster_name key) w
    unfolding get_and_approve
    get_and_approve-Provided key w same origin =
        bind-Provided (or_fatal (get_csr c "vault.svc")) (approve c namespace cluster_name key) w
          kept (λ r e. approve-Provided key r _ kept (origin r (ok_of_fatal _ e)))
      where
        kept : L.secrets (c.kube_get_csr "vault.svc" w.kube).1 ≡ before
        kept = L.get_csr_keeps "vault.svc" w.kube ∙ same

    -- The signing request is made without a change to the Secrets.
    issue-keeps :
        (r : SigningRequest) (w : World c.Kube c.Vault)
        → L.secrets (issue c namespace cluster_name r w).1.kube ≡ L.secrets w.kube
    unfolding issue
    issue-keeps r w = ground (
      arith,
      L.create_csr_keeps r w.kube,
      L.delete_csr_keeps "vault.svc" (c.kube_create_csr r w.kube).1,
      L.create_csr_keeps r (c.kube_delete_csr "vault.svc" (c.kube_create_csr r w.kube).1).1,
    )

    request_certificate-Provided :
        (key request : String) (w : World c.Kube c.Vault)
        → L.secrets w.kube ≡ before
        → FromRequest key
            (issue c namespace cluster_name
              (csr_to_k8s (c.pem_encode "CERTIFICATE REQUEST" request))
              w).1.kube
        → Goes (request_certificate c namespace cluster_name key request) w
    unfolding request_certificate
    request_certificate-Provided key request w same origin =
        bind-Provided (issue c namespace cluster_name r)
          (λ _. get_and_approve c namespace cluster_name key) w kept
          (λ _ _. get_and_approve-Provided key _ kept origin)
      where
        r : SigningRequest
        r = csr_to_k8s (c.pem_encode "CERTIFICATE REQUEST" request)

        kept : L.secrets (issue c namespace cluster_name r w).1.kube ≡ before
        kept = issue-keeps r w ∙ same

  -- If the job returns, then the one change is that the Secret vault-ha-tls holds the private key
  -- that it made and the certificate of its signing request as the API server answered it after the
  -- approval, which may be empty. However else it ends, no Secret but vault-ha-tls has changed.
  pub main-Provided :
      (w : World c.Kube c.Vault)
      → let (o, w') = main c namespace cluster_name w in
        Provided (MadeIn w) (L.secrets w.kube) o (L.secrets w'.kube)
  unfolding main marshal with_key
  main-Provided w =
      bind-Provided (MadeIn w) (L.secrets w.kube) (or_fatal (lift (outcome_of c.generate_key)))
        (marshal c namespace cluster_name) w refl
        (λ priv made.
          bind-Provided (MadeIn w) (L.secrets w.kube)
            (or_fatal (lift (outcome_of (c.marshal_key priv))))
            (with_key c namespace cluster_name priv) w refl
            (λ der marshalled.
              bind-Provided (MadeIn w) (L.secrets w.kube)
                (or_fatal (
                  lift
                    (outcome_of (c.create_request (request_template namespace cluster_name) priv))))
                (request_certificate c namespace cluster_name (c.pem_encode "EC PRIVATE KEY" der)) w
                refl
                (λ request requested.
                  request_certificate-Provided (MadeIn w) (L.secrets w.kube)
                    (c.pem_encode "EC PRIVATE KEY" der) request w refl
                    (λ first found last accepted read. (
                      priv,
                      der,
                      request,
                      first,
                      last,
                      ok_of_fatal _ made,
                      ok_of_fatal _ marshalled,
                      refl,
                      ok_of_fatal _ requested,
                      (found, accepted, read),
                      refl,
                    )))))
