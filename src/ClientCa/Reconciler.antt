-- ===== src/ClientCa/Reconciler.antt =====
-- `InternalClientCAReconciler`
-- (operator/internal-client-ca/internal/controller/internalclientca_controller.go). Logging is left
-- out, and `ctrl.Result{}`, which is what every branch returns, is the unit value.
use service_identity_provide.Base.{String, ◌<>◌, not, none, List, [], if◌then◌else◌}
use service_identity_provide.Base.Fields.{assign}
use service_identity_provide.Base.Lists.{has_mount}
use service_identity_provide.Base.Suffix.{trim_suffix}
use service_identity_provide.Objects.{
  NamespacedName, Secret, Result, ok, err, is_not_found, is_already_exists,
}
use service_identity_provide.Resources.ClientCas.{InternalClientCa}
use service_identity_provide.Cluster.{Cluster, Outcome, outcome_of, ◌>>=◌, pure, fail, lift, try}
use service_identity_provide.Cluster.Api.{
  Go, get_client_ca, list_mounts, create_secret, update_secret, read_ca_chain,
}
use service_identity_provide.ClientCa.Setup.{enable_pki_client_ca}

unfoldable pub client_ca_path : InternalClientCa → String
client_ca_path cr = ("sip-client-ca/" <> cr.spec.certificate.subject.cn) <> "-ca/"

-- `strings.TrimSuffix(clientCAPath, "/")`
unfoldable pub mount_of : InternalClientCa → String
unfolding client_ca_path trim_suffix
mount_of cr = trim_suffix (client_ca_path cr) "/"

unfoldable pub secret_literal : InternalClientCa → String → Secret
unfolding assign
secret_literal cr cert = record {
  name = cr.spec.secret.name;
  namespace = cr.meta.namespace;
  data_fields = [];
  string_data = assign [] cr.spec.secret.cert_name cert;
  secret_type = "Opaque";
  owner = none;
}

module _ (c : Cluster) where
  unfoldable pub build_secret_from : InternalClientCa → String → Outcome Secret
  unfolding secret_literal
  build_secret_from cr cert =
      outcome_of (c.set_controller_reference "InternalClientCA" cr.meta (secret_literal cr cert))

  -- After `Create`: an error that is let pass by the test is returned all the same.
  unfoldable pub after_create : Result (Unit {0}) → Go c (Unit {0})
  after_create (ok _) = pure tt
  after_create (err e) = if not (is_already_exists e) then fail e else fail e

  -- After `Update`.
  unfoldable pub after_update : Secret → Result (Unit {0}) → Go c (Unit {0})
  after_update secret (ok _) = pure tt
  after_update secret (err e) = if is_not_found e then create_secret c secret else fail e

  unfoldable pub write_new : Secret → Go c (Unit {0})
  unfolding after_create
  write_new secret = try (create_secret c secret) >>= after_create

  unfoldable pub write_again : Secret → Go c (Unit {0})
  unfolding after_update
  write_again secret = try (update_secret c secret) >>= after_update secret

  unfoldable pub store_new : InternalClientCa → String → Go c (Unit {0})
  unfolding build_secret_from write_new
  store_new cr cert = lift (build_secret_from cr cert) >>= write_new

  unfoldable pub store_again : InternalClientCa → String → Go c (Unit {0})
  unfolding build_secret_from write_again
  store_again cr cert = lift (build_secret_from cr cert) >>= write_again

  -- The branch for a mount that is not listed.
  unfoldable pub reconcile_absent : InternalClientCa → Go c (Unit {0})
  unfolding enable_pki_client_ca mount_of store_new
  reconcile_absent cr = enable_pki_client_ca c cr (mount_of cr) >>= store_new cr

  -- The branch for a mount that is listed.
  unfoldable pub reconcile_present : InternalClientCa → Go c (Unit {0})
  unfolding mount_of store_again
  reconcile_present cr = read_ca_chain c (mount_of cr) >>= store_again cr

  unfoldable pub after_mounts : InternalClientCa → List String → Go c (Unit {0})
  unfolding has_mount client_ca_path reconcile_absent reconcile_present
  after_mounts cr mounts =
      if not (has_mount (client_ca_path cr) mounts)
      then reconcile_absent cr
      else reconcile_present cr

  -- `Reconcile` from its second step on.
  unfoldable pub reconcile_loaded : InternalClientCa → Go c (Unit {0})
  unfolding after_mounts
  reconcile_loaded cr = list_mounts c >>= after_mounts cr

  unfoldable pub after_load : Result InternalClientCa → Go c (Unit {0})
  unfolding reconcile_loaded
  after_load (ok cr) = reconcile_loaded cr
  after_load (err e) = if is_not_found e then pure tt else fail e

  unfoldable pub reconcile : NamespacedName → Go c (Unit {0})
  unfolding after_load
  reconcile req = try (get_client_ca c req) >>= after_load
