-- ===== src/Demo/Flows.antt =====
-- root_ca.go, intermediate-ca.go, server.go, client.go and main.go: the certificates, in order.
use service_identity_provide.Base.{ℕ, true, false, none, some, [], ◌∷◌}
use service_identity_provide.Objects.{Result}
use service_identity_provide.Cluster.{◌>>=◌, ◌>>◌, lift}
use service_identity_provide.Demo.Machine.{Template, Packages, Tool, draw, fatal, panic}
use service_identity_provide.Demo.Util.{
  generate_serial_number, parse_pem_cert, parse_ec_key, cert_to_file, key_to_file, csr_to_file,
  build_server_cert_chain, build_client_cert_chain,
}

abbrev pub root_template : ℕ → Template
root_template serial = record {
  serial_number = serial;
  country = "CN" ∷ [];
  province = "SH" ∷ [];
  organization = "sip.com" ∷ [];
  organizational_unit = "ca" ∷ [];
  common_name = "ca.sip.com";
  dns_names = [];
  ip_addresses = [];
  years = 10;
  key_usage = "CertSign" ∷ "CRLSign" ∷ [];
  ext_key_usage = [];
  basic_constraints_valid = true;
  is_ca = true;
  authority_key_id = "Private CA";
}

abbrev pub interm_template : ℕ → Template
interm_template serial = record {
  serial_number = serial;
  country = "CN" ∷ [];
  province = "SH" ∷ [];
  organization = "intermediate.com" ∷ [];
  organizational_unit = "ca" ∷ [];
  common_name = "ca.intermediate.com";
  dns_names = [];
  ip_addresses = [];
  years = 5;
  key_usage = "CertSign" ∷ "CRLSign" ∷ [];
  ext_key_usage = [];
  basic_constraints_valid = true;
  is_ca = true;
  authority_key_id = "";
}

abbrev pub server_template : ℕ → Template
server_template serial = record {
  serial_number = serial;
  country = "CN" ∷ [];
  province = "SH" ∷ [];
  organization = "server.com" ∷ [];
  organizational_unit = "test" ∷ [];
  common_name = "test.server.com";
  dns_names = "test.server.com" ∷ "localhost" ∷ "service-provider" ∷ [];
  ip_addresses = "192.168.60.10" ∷ "127.0.0.1" ∷ "::1" ∷ [];
  years = 1;
  key_usage = "DigitalSignature" ∷ [];
  ext_key_usage = "ServerAuth" ∷ [];
  basic_constraints_valid = false;
  is_ca = false;
  authority_key_id = "";
}

abbrev pub client_template : ℕ → Template
client_template serial = record {
  serial_number = serial;
  country = "CN" ∷ [];
  province = "SH" ∷ [];
  organization = "client.com" ∷ [];
  organizational_unit = "test" ∷ [];
  common_name = "test.client.com";
  dns_names = "test.client.com" ∷ "localhost" ∷ "service-consumer" ∷ [];
  ip_addresses = "192.168.60.20" ∷ "127.0.0.1" ∷ "::1" ∷ [];
  years = 1;
  key_usage = "DigitalSignature" ∷ [];
  ext_key_usage = "ClientAuth" ∷ [];
  basic_constraints_valid = false;
  is_ca = false;
  authority_key_id = "";
}

module _ (x : Packages) where
  -- A call whose error ends the process by `log.Fatalf`, and one whose error is a panic.
  abbrev pub must : {A : Type 0} → Tool x.Random (Result A) → Tool x.Random A
  must m = m >>= λ r. lift (fatal r)

  abbrev pub must_or_panic : {A : Type 0} → Tool x.Random (Result A) → Tool x.Random A
  must_or_panic m = m >>= λ r. lift (panic r)

  unfoldable pub gen_ca : Tool x.Random (Unit {0})
  unfolding generate_serial_number cert_to_file key_to_file
  gen_ca = do
    priv ← must (draw x.generate_key)
    serial ← must (generate_serial_number x)
    cert ← must (draw (x.create_certificate (root_template serial) none priv priv))
    must (cert_to_file x cert "./artifacts/ca.pem")
    must (key_to_file x priv "./artifacts/ca-key.pem")

  unfoldable pub gen_interm_csr_and_cert : Tool x.Random (Unit {0})
  unfolding generate_serial_number parse_pem_cert parse_ec_key csr_to_file cert_to_file key_to_file
  gen_interm_csr_and_cert = do
    priv ← must (draw x.generate_key)
    serial ← must (generate_serial_number x)
    ca_cert ← must (parse_pem_cert x "./artifacts/ca.pem")
    ca_key ← must (parse_ec_key x "./artifacts/ca-key.pem")
    csr ← must (draw (x.create_request (interm_template serial) priv))
    must (csr_to_file x csr "./artifacts/intermediate.csr")
    cert ←
        must_or_panic
          (draw (x.create_certificate (interm_template serial) (some ca_cert) priv ca_key))
    must (cert_to_file x cert "./artifacts/intermediate.pem")
    must (key_to_file x priv "./artifacts/intermediate-key.pem")

  unfoldable pub gen_server_cert : Tool x.Random (Unit {0})
  unfolding generate_serial_number parse_pem_cert parse_ec_key csr_to_file cert_to_file key_to_file
  gen_server_cert = do
    priv ← must (draw x.generate_key)
    serial ← must (generate_serial_number x)
    csr ← must (draw (x.create_request (server_template serial) priv))
    must (csr_to_file x csr "./artifacts/server.csr")
    ca_cert ← must (parse_pem_cert x "./artifacts/intermediate.pem")
    ca_key ← must (parse_ec_key x "./artifacts/intermediate-key.pem")
    cert ←
        must_or_panic
          (draw (x.create_certificate (server_template serial) (some ca_cert) priv ca_key))
    must (cert_to_file x cert "./artifacts/server.pem")
    must (key_to_file x priv "./artifacts/server-key.pem")

  unfoldable pub gen_client_cert : Tool x.Random (Unit {0})
  unfolding generate_serial_number parse_pem_cert parse_ec_key csr_to_file cert_to_file key_to_file
  gen_client_cert = do
    priv ← must (draw x.generate_key)
    serial ← must (generate_serial_number x)
    csr ← must (draw (x.create_request (client_template serial) priv))
    must (csr_to_file x csr "./artifacts/client.csr")
    ca_cert ← must (parse_pem_cert x "./artifacts/intermediate.pem")
    ca_key ← must (parse_ec_key x "./artifacts/intermediate-key.pem")
    cert ←
        must_or_panic
          (draw (x.create_certificate (client_template serial) (some ca_cert) priv ca_key))
    must (cert_to_file x cert "./artifacts/client.pem")
    must (key_to_file x priv "./artifacts/client-key.pem")

  -- The errors of the two chains are never set, so the early returns are not taken.
  unfoldable pub main : Tool x.Random (Unit {0})
  unfolding gen_ca gen_interm_csr_and_cert gen_server_cert build_server_cert_chain gen_client_cert
      build_client_cert_chain
  main = do
    gen_ca
    gen_interm_csr_and_cert
    gen_server_cert
    build_server_cert_chain x "./artifacts/server.pem" ("./artifacts/intermediate.pem" ∷ [])
    gen_client_cert
    build_client_cert_chain x "./artifacts/client.pem" ("./artifacts/intermediate.pem" ∷ [])
