-- ===== src/Tls.antt =====
-- What the programs set of a `tls.Config` (crypto/tls): the operators' entry points the protocols,
-- mtls-demo/service-consumer/main.go and mtls-demo/service-provider/main.go the rest.
use service_identity_provide.Base.{ℕ, String, none, Option, List, []}

-- `tls.NoClientCert` and `tls.RequireAndVerifyClientCert`
pub data ClientAuth : Type 0 where
  no_client_cert require_and_verify_client_cert : ClientAuth

-- A key pair as the texts of its two files: the certificate with its chain, and the key.
pub record KeyPair : Type 0 where
  pub certificate : String
  pub key : String

-- A pool is the PEM text that `AppendCertsFromPEM` was given: what it cannot read is left out
-- without an error. Without a pool of roots the system's are used.
pub record TlsConfig : Type 0 where
  pub next_protos : List String
  pub root_cas : Option String
  pub client_cas : Option String
  pub certificates : List KeyPair
  pub client_auth : ClientAuth
  pub min_version : ℕ

-- `&tls.Config{}`
abbrev pub zero_config : TlsConfig
zero_config = record {
  next_protos = [];
  root_cas = none;
  client_cas = none;
  certificates = [];
  client_auth = no_client_cert;
  min_version = 0;
}
