-- ===== src/Bootstrap/Job.antt =====
-- `main`: a key pair, a signing request for it that the job approves itself, and the Secret with
-- the certificate. `log.Fatalf` and `os.Exit(1)` end the process with status 1.
use service_identity_provide.Base.{String, ◌<>◌, none, [], ◌∷◌, ◌++◌, if◌then◌else◌}
use service_identity_provide.Base.Fields.{Fields, assign}
use service_identity_provide.Objects.{
  Secret, Condition, SigningRequest, RequestTemplate, Result, ok, err, is_already_exists,
}
use service_identity_provide.Cluster.{Cluster, exited, outcome_of, ◌>>=◌, pure, try, lift, or_fatal}
use service_identity_provide.Cluster.Api.{Go, create_csr, get_csr, delete_csr, update_approval}
use service_identity_provide.Persist.{creating, persist_from}

abbrev pub request_template : String → String → RequestTemplate
request_template namespace cluster_name = record {
  organization = "system:nodes" ∷ [];
  common_name = "system:node:vault-internal." <> (namespace <> ".svc");
  signature_algorithm = "ECDSAWithSHA256";
  dns_names =
      "vault-active"
      ∷ "vault-internal"
      ∷ "*.vault-internal"
      ∷ ("*.vault-internal." <> namespace)
      ∷ ("*.vault-internal." <> (namespace <> ".svc."))
      ∷ ("*.vault-internal." <> (namespace <> (".svc." <> cluster_name)))
      ∷ [];
  ip_addresses = "127.0.0.1" ∷ [];
}

abbrev pub csr_to_k8s : String → SigningRequest
csr_to_k8s request = record {
  name = "vault.svc";
  signer_name = "kubernetes.io/kubelet-serving";
  expiration_seconds = 31557600;
  request = request;
  usages = "digital signature" ∷ "key encipherment" ∷ "server auth" ∷ [];
  conditions = [];
  certificate = "";
}

abbrev pub approval : Condition
approval = record {
  condition_type = "Approved";
  reason = "ManuallyApproved";
  message = "This CSR was approved manually";
  status = "True";
}

abbrev pub approved : SigningRequest → SigningRequest
approved r = record r { conditions = r.conditions ++ (approval ∷ []) }

abbrev pub tls_secret : String → String → String → Secret
tls_secret namespace cert key = record {
  name = "vault-ha-tls";
  namespace = namespace;
  data_fields = ("vault.crt", cert) ∷ ("vault.key", key) ∷ [];
  string_data = [];
  secret_type = "Opaque";
  owner = none;
}

abbrev pub set_pair : String → String → Fields → Fields
set_pair cert key d = assign (assign d "vault.crt" cert) "vault.key" key

module _ (c : Cluster) (namespace cluster_name : String) where
  -- After the first creation: a request of that name is deleted and made again. The error of the
  -- second creation is only printed.
  abbrev pub after_csr : SigningRequest → Result (Unit {0}) → Go c (Unit {0})
  after_csr r (ok _) = pure tt
  after_csr r (err e) =
      if is_already_exists e
      then (or_fatal (delete_csr c "vault.svc") >>= λ _. try (create_csr c r) >>= λ _. pure tt)
      else lift (exited 1)

  unfoldable pub issue : SigningRequest → Go c (Unit {0})
  issue r = try (create_csr c r) >>= after_csr r

  -- The persisted key pair, and the end of `main`.
  unfoldable pub store_pair : String → SigningRequest → Go c (Unit {0})
  unfolding persist_from
  store_pair key r =
      persist_from c (tls_secret namespace r.certificate key) (set_pair r.certificate key) 3
        creating
      >>= λ _. or_fatal (delete_csr c "vault.svc")

  -- The certificate is read after one second, whether it is there or not.
  unfoldable pub fetch : String → Go c (Unit {0})
  unfolding store_pair
  fetch key = or_fatal (get_csr c "vault.svc") >>= store_pair key

  unfoldable pub approve : String → SigningRequest → Go c (Unit {0})
  unfolding fetch
  approve key r = or_fatal (update_approval c "vault.svc" (approved r)) >>= λ _. fetch key

  unfoldable pub get_and_approve : String → Go c (Unit {0})
  unfolding approve
  get_and_approve key = or_fatal (get_csr c "vault.svc") >>= approve key

  unfoldable pub request_certificate : String → String → Go c (Unit {0})
  unfolding issue get_and_approve
  request_certificate key request =
      issue (csr_to_k8s (c.pem_encode "CERTIFICATE REQUEST" request)) >>= λ _. get_and_approve key

  unfoldable pub with_key : String → String → Go c (Unit {0})
  unfolding request_certificate
  with_key priv der =
      or_fatal (lift (outcome_of (c.create_request (request_template namespace cluster_name) priv)))
      >>= request_certificate (c.pem_encode "EC PRIVATE KEY" der)

  unfoldable pub marshal : String → Go c (Unit {0})
  unfolding with_key
  marshal priv = or_fatal (lift (outcome_of (c.marshal_key priv))) >>= with_key priv

  unfoldable pub main : Go c (Unit {0})
  unfolding marshal
  main = or_fatal (lift (outcome_of c.generate_key)) >>= marshal
