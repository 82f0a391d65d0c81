-- ===== src/Cert/Reconciler.antt =====
-- `InternalCertificateReconciler`
-- (operator/internal-cert/internal/controller/internalcertificate_controller.go). Logging is left
-- out, and `ctrl.Result{}`, which is what every branch returns, is the unit value.
use service_identity_provide.Base.{String, ◌<>◌, none, [], ◌∷◌, if◌then◌else◌}
use service_identity_provide.Base.Fields.{assign}
use service_identity_provide.Objects.{
  NamespacedName, Secret, Result, ok, err, is_not_found, is_already_exists,
}
use service_identity_provide.Resources.Certificates.{InternalCertificate}
use service_identity_provide.Cluster.{
  Cluster, IssueRequest, Issued, Outcome, returned, panicked, and_then, outcome_of, ◌>>=◌, pure,
  fail, lift, try,
}
use service_identity_provide.Cluster.Api.{
  Go, get_certificate, get_secret, create_secret, update_secret, issue_with_role,
}

-- The names that the issued certificate is valid for.
unfoldable pub alt_names : String → String
alt_names cn =
    cn <> (", " <> (cn <> (".sip, " <> (cn <> (".sip.svc, " <> (cn <> ".sip.svc.cluster.local"))))))

abbrev pub issue_request : String → IssueRequest
issue_request cn = record { common_name = cn; alt_names = alt_names cn }

abbrev pub secret_key : String → InternalCertificate → NamespacedName
secret_key namespace cr = record { namespace = namespace; name = cr.spec.secret.name }

abbrev pub client_mount : InternalCertificate → String
client_mount cr = "sip-client-ca/" <> cr.spec.certificate.issuer.reference

-- The `corev1.Secret` literal. Its map literal writes the key first and the certificate second.
unfoldable pub secret_literal : InternalCertificate → Issued → String → Secret
unfolding assign
secret_literal cr resp cert = record {
  name = cr.spec.secret.name;
  namespace = cr.meta.namespace;
  data_fields = [];
  string_data =
      assign (assign [] cr.spec.secret.key_name resp.private_key) cr.spec.secret.cert_name cert;
  secret_type = "Opaque";
  owner = none;
}

-- The certificate that is stored: only a server certificate is followed by its issuer,
-- `issueResp.Data.CaChain[0]`, which panics on an empty chain.
unfoldable pub stored_cert : InternalCertificate → Issued → Outcome String
stored_cert cr resp =
    if cr.spec.certificate.extended_key_usage.client_auth
    then returned resp.certificate
    else elim resp.ca_chain [ [] ↦ panicked | ca ∷ _ ↦ returned (resp.certificate <> ("\n" <> ca)) ]

module _ (c : Cluster) where
  unfoldable pub build_secret_from : InternalCertificate → Issued → Outcome Secret
  unfolding stored_cert secret_literal
  build_secret_from cr resp = and_then (stored_cert cr resp) λ cert.
      outcome_of
        (c.set_controller_reference "InternalCertificate" cr.meta (secret_literal cr resp cert))

  -- What follows `r.Client.Create` in the client branch.
  unfoldable pub after_client_create : Secret → Result (Unit {0}) → Go c (Unit {0})
  after_client_create secret (ok _) = pure tt
  after_client_create secret (err e) =
      if is_already_exists e then update_secret c secret else fail e

  unfoldable pub write_client : Secret → Go c (Unit {0})
  unfolding after_client_create
  write_client secret = try (create_secret c secret) >>= after_client_create secret

  unfoldable pub store_client : InternalCertificate → Issued → Go c (Unit {0})
  unfolding build_secret_from write_client
  store_client cr resp = lift (build_secret_from cr resp) >>= write_client

  abbrev pub issue_client : InternalCertificate → Go c Issued
  issue_client cr =
      issue_with_role c "client-ca" (issue_request cr.spec.certificate.subject.cn) (client_mount cr)

  -- The client branch once the Secret could not be read, whatever the reason.
  unfoldable pub provide_client : InternalCertificate → Go c (Unit {0})
  unfolding store_client
  provide_client cr = issue_client cr >>= store_client cr

  unfoldable pub after_client_get : InternalCertificate → Result Secret → Go c (Unit {0})
  unfolding provide_client
  after_client_get cr (ok _) = pure tt
  after_client_get cr (err e) = provide_client cr

  unfoldable pub store_server : InternalCertificate → Issued → Go c (Unit {0})
  unfolding build_secret_from
  store_server cr resp = lift (build_secret_from cr resp) >>= create_secret c

  abbrev pub issue_server : InternalCertificate → Go c Issued
  issue_server cr =
      issue_with_role c "interm-ca" (issue_request cr.spec.certificate.subject.cn) "sip-interm-ca"

  unfoldable pub provide_server : InternalCertificate → Go c (Unit {0})
  unfolding store_server
  provide_server cr = issue_server cr >>= store_server cr

  -- In the server branch an error other than NotFound is dropped.
  unfoldable pub after_server_get : InternalCertificate → Result Secret → Go c (Unit {0})
  unfolding provide_server
  after_server_get cr (ok _) = pure tt
  after_server_get cr (err e) = if is_not_found e then provide_server cr else pure tt

  unfoldable pub reconcile_client : String → InternalCertificate → Go c (Unit {0})
  unfolding after_client_get
  reconcile_client namespace cr =
      try (get_secret c (secret_key namespace cr)) >>= after_client_get cr

  unfoldable pub reconcile_server : String → InternalCertificate → Go c (Unit {0})
  unfolding after_server_get
  reconcile_server namespace cr =
      try (get_secret c (secret_key namespace cr)) >>= after_server_get cr

  -- `Reconcile` from its second step on.
  unfoldable pub reconcile_loaded : String → InternalCertificate → Go c (Unit {0})
  unfolding reconcile_client reconcile_server
  reconcile_loaded namespace cr =
      if cr.spec.certificate.extended_key_usage.client_auth
      then reconcile_client namespace cr
      else if cr.spec.certificate.extended_key_usage.server_auth
      then reconcile_server namespace cr
      else pure tt

  unfoldable pub after_load : String → Result InternalCertificate → Go c (Unit {0})
  unfolding reconcile_loaded
  after_load namespace (ok cr) = reconcile_loaded namespace cr
  after_load namespace (err e) = if is_not_found e then pure tt else fail e

  unfoldable pub reconcile : NamespacedName → Go c (Unit {0})
  unfolding after_load
  reconcile req = try (get_certificate c req) >>= after_load req.namespace
