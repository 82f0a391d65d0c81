-- ===== src/Pki/Setup.antt =====
-- The setup of the two CAs (vault/client-go/pki/main.go), as far as it runs in one thread: `init`,
-- the start of `enablePKIRootCA` up to its goroutine, `enablePKIIntermCA` and `disableFlag`.
-- `log.Fatal` ends the process with status 1.
use service_identity_provide.Base.{String, ◌<>◌, true, false, [], ◌∷◌, if◌then◌else◌}
use service_identity_provide.Base.Fields.{field}
use service_identity_provide.Objects.{Secret, Result, ok, err}
use service_identity_provide.Cluster.{
  Cluster, EnableRequest, RootRequest, UrlsRequest, RoleRequest, HttpRequest, IntermediateRequest,
  SignRequest, ◌>>=◌, pure, try, or_fatal,
}
use service_identity_provide.Cluster.Api.{
  Go, get_secret, enable_engine, tune_mount, generate_root, configure_urls, write_role,
  generate_intermediate, sign_intermediate, set_signed, send_http,
}

abbrev pub root_ca_path : String
root_ca_path = "sip-root-ca"

abbrev pub interm_ca_path : String
interm_ca_path = "sip-interm-ca"

abbrev pub root_ca_ttl : String
root_ca_ttl = "876000h"

abbrev pub interm_ca_ttl : String
interm_ca_ttl = "168h"

abbrev pub root_ca_role : String
root_ca_role = "root-ca"

abbrev pub interm_ca_role : String
interm_ca_role = "interm-ca"

abbrev pub vault_address : String
vault_address = "https://vault-internal:8200"

abbrev pub enable_request : EnableRequest
enable_request = record {
  engine_type = "pki";
  description = "CA certificate backend created by sip for server authn";
}

abbrev pub root_request : RootRequest
root_request = record {
  common_name = "sip Internal Root CA";
  key_type = "ec";
  key_bits = 256;
  ttl = root_ca_ttl;
}

abbrev pub urls_request : String → UrlsRequest
urls_request path = record {
  issuing_certificates = (vault_address <> ("/v1/" <> (path <> "/ca"))) ∷ [];
  crl_distribution_points = (vault_address <> ("/v1/" <> (path <> "/crl"))) ∷ [];
}

abbrev pub root_role_request : RoleRequest
root_role_request = record {
  allow_any_name = true;
  key_type = "ec";
  key_bits = 256;
  key_usage = "CertSign,CRLSign" ∷ [];
  ext_key_usage = [];
  enforce_hostnames = false;
  basic_constraints_valid_for_non_ca = false;
  max_ttl = root_ca_ttl;
}

abbrev pub interm_role_request : RoleRequest
interm_role_request = record {
  allow_any_name = true;
  key_type = "ec";
  key_bits = 256;
  key_usage = "DigitalSignature" ∷ [];
  ext_key_usage = "ServerAuth" ∷ [];
  enforce_hostnames = false;
  basic_constraints_valid_for_non_ca = false;
  max_ttl = interm_ca_ttl;
}

abbrev pub csr_request : IntermediateRequest
csr_request = record {
  common_name = "sip Internal Intermediate CA";
  key_type = "ec";
  key_bits = 256;
  add_basic_constraints = true;
  ttl = interm_ca_ttl;
}

abbrev pub sign_request : String → SignRequest
sign_request csr = record { csr = csr; format = "pem"; use_csr_values = true; ttl = root_ca_ttl }

abbrev pub role_url : String → String → String
role_url pki role = vault_address <> ("/v1/" <> (pki <> ("/roles/" <> role)))

abbrev pub flag_request : String → String → String → HttpRequest
flag_request token pki role = record {
  method = "PATCH";
  url = role_url pki role;
  body = "{\"client_flag\":false,\"server_flag\":false}";
  content_type = "application/merge-patch+json";
  vault_token = token;
  insecure_skip_verify = true;
}

module _ (c : Cluster) (token : String) where
  unfoldable pub disable_flag : String → String → Go c (Unit {0})
  disable_flag pki role =
      if c.accepts_url (role_url pki role)
      then (try (send_http c (flag_request token pki role)) >>= λ _. pure tt)
      else pure tt

  -- `enablePKIRootCA` up to the start of its goroutine: it gives the root's certificate. Whether
  -- the engine could be enabled is not looked at.
  unfoldable pub tune_root : Go c String
  tune_root = or_fatal (tune_mount c root_ca_path root_ca_ttl) >>= λ _.
      or_fatal (generate_root c "internal" root_request root_ca_path)

  unfoldable pub begin_root : Go c String
  unfolding tune_root
  begin_root = try (enable_engine c root_ca_path enable_request) >>= λ _. tune_root

  -- The end of `enablePKIIntermCA`: request a certificate, have it signed, install it.
  abbrev pub install_signed : String → Go c (Unit {0})
  install_signed certificate = or_fatal (set_signed c certificate interm_ca_path)

  unfoldable pub sign_by_root : String → Go c (Unit {0})
  sign_by_root csr =
      or_fatal (sign_intermediate c (sign_request csr) root_ca_path) >>= install_signed

  unfoldable pub install_interm : Go c (Unit {0})
  unfolding sign_by_root
  install_interm =
      or_fatal (generate_intermediate c "internal" csr_request interm_ca_path) >>= sign_by_root

  unfoldable pub flag_interm : Go c (Unit {0})
  unfolding disable_flag install_interm
  flag_interm = disable_flag interm_ca_path interm_ca_role >>= λ _. install_interm

  unfoldable pub role_interm : Go c (Unit {0})
  unfolding flag_interm
  role_interm =
      or_fatal (write_role c interm_ca_role interm_role_request interm_ca_path) >>= λ _. flag_interm

  unfoldable pub urls_interm : Go c (Unit {0})
  unfolding role_interm
  urls_interm =
      or_fatal (configure_urls c (urls_request interm_ca_path) interm_ca_path) >>= λ _. role_interm

  unfoldable pub tune_interm : Go c (Unit {0})
  unfolding urls_interm
  tune_interm = or_fatal (tune_mount c interm_ca_path interm_ca_ttl) >>= λ _. urls_interm

  unfoldable pub enable_pki_interm_ca : Go c (Unit {0})
  unfolding tune_interm
  enable_pki_interm_ca = try (enable_engine c interm_ca_path enable_request) >>= λ _. tune_interm

-- The token in `init`, whose read error is dropped: the Secret is empty then.
abbrev pub token_or_empty : Result Secret → String
token_or_empty (ok s) = field s.data_fields "token"
token_or_empty (err e) = ""

unfoldable pub read_root_token : (c : Cluster) → String → Go c String
unfolding field
read_root_token c namespace =
    try (get_secret c (record { namespace = namespace; name = "vault-root-token" })) >>= λ found.
    pure (token_or_empty found)
