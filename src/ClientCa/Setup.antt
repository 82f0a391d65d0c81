-- ===== src/ClientCa/Setup.antt =====
-- `enablePKIClientCA` and `disableFlag`
-- (operator/internal-client-ca/internal/controller/internalclientca_controller.go). Logging and
-- printing are left out.
use service_identity_provide.Base.{String, ◌<>◌, true, false, [], ◌∷◌, if◌then◌else◌}
use service_identity_provide.Base.Fields.{field}
use service_identity_provide.Objects.{Secret, Result, ok, err}
use service_identity_provide.Resources.ClientCas.{InternalClientCa}
use service_identity_provide.Cluster.{
  Cluster, EnableRequest, RootRequest, UrlsRequest, RoleRequest, HttpRequest, ◌>>=◌, ◌>>◌, pure,
  try,
}
use service_identity_provide.Startup.{root_token_key, connect}
use service_identity_provide.Cluster.Api.{
  Go, get_secret, enable_engine, tune_mount, generate_root, configure_urls, write_role, send_http,
}

abbrev pub vault_internal_service_name : String
vault_internal_service_name = "vault-internal"

abbrev pub client_ca_ttl : String
client_ca_ttl = "876000h"

abbrev pub client_cert_ttl : String
client_cert_ttl = "168h"

abbrev pub client_ca_role : String
client_ca_role = "client-ca"

abbrev pub patch_body : String
patch_body = "{\"client_flag\":false,\"server_flag\":false}"

abbrev pub vault_url : String → String
vault_url path = "https://" <> (vault_internal_service_name <> (":8200/v1/" <> path))

abbrev pub enable_request : EnableRequest
enable_request = record {
  engine_type = "pki";
  description = "CA certificate backend created by sip for client authn";
}

abbrev pub root_request : InternalClientCa → RootRequest
root_request cr = record {
  common_name = cr.spec.certificate.subject.cn;
  key_type = "ec";
  key_bits = 256;
  ttl = client_ca_ttl;
}

abbrev pub urls_request : String → UrlsRequest
urls_request path = record {
  issuing_certificates = vault_url (path <> "/ca") ∷ [];
  crl_distribution_points = vault_url (path <> "/crl") ∷ [];
}

-- The fields that the literal leaves out are Go's zero values.
abbrev pub role_request : RoleRequest
role_request = record {
  allow_any_name = true;
  key_type = "ec";
  key_bits = 256;
  key_usage = "CertSign,CRLSign" ∷ [];
  ext_key_usage = [];
  enforce_hostnames = false;
  basic_constraints_valid_for_non_ca = true;
  max_ttl = client_cert_ttl;
}

abbrev pub flag_request : String → String → String → HttpRequest
flag_request pki role token = record {
  method = "PATCH";
  url = vault_url (pki <> ("/roles/" <> role));
  body = patch_body;
  content_type = "application/merge-patch+json";
  vault_token = token;
  insecure_skip_verify = true;
}

module _ (c : Cluster) where
  -- `disableFlag` reports no failure, neither of the request nor of its status.
  unfoldable pub disable_flag : String → String → String → Go c (Unit {0})
  disable_flag pki role token =
      if c.accepts_url (vault_url (pki <> ("/roles/" <> role)))
      then (try (send_http c (flag_request pki role token)) >>= λ _. pure tt)
      else pure tt

  -- What follows the read of the root token: without it the certificate is dropped, with no error.
  unfoldable pub after_token : String → String → Result Secret → Go c String
  unfolding disable_flag field
  after_token path cert (ok secret) =
      disable_flag path client_ca_role (field secret.data_fields "token") >> pure cert
  after_token path cert (err e) = pure ""

  -- The end of `enablePKIClientCA`, from the client of Kubernetes on.
  unfoldable pub finish : String → String → Go c String
  unfolding after_token
  finish path cert = do
    connect c
    found ← try (get_secret c (root_token_key c))
    after_token path cert found

  -- `enablePKIClientCA`, its last step first.
  unfoldable pub set_role : String → String → Go c String
  unfolding finish
  set_role path cert = write_role c client_ca_role role_request path >>= λ _. finish path cert

  unfoldable pub set_urls : String → String → Go c String
  unfolding set_role
  set_urls path cert = configure_urls c (urls_request path) path >>= λ _. set_role path cert

  unfoldable pub set_root : InternalClientCa → String → Go c String
  unfolding set_urls
  set_root cr path = generate_root c "internal" (root_request cr) path >>= set_urls path

  unfoldable pub set_ttl : InternalClientCa → String → Go c String
  unfolding set_root
  set_ttl cr path = tune_mount c path client_ca_ttl >>= λ _. set_root cr path

  unfoldable pub enable_pki_client_ca : InternalClientCa → String → Go c String
  unfolding set_ttl
  enable_pki_client_ca cr path = enable_engine c path enable_request >>= λ _. set_ttl cr path
