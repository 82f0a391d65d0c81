-- ===== src/Examples/Cas.antt =====
-- The InternalClientCA operator on concrete resources.
use service_identity_provide.Base.{
  String, ◌≡◌, ap, ◌↔◌, refl, Bool, true, false, none, some, [], ◌∷◌, if◌then◌else◌,
}
use service_identity_provide.Base.Fields.{field, merge, assign}
use service_identity_provide.Base.Lists.{has_mount, count_if, Sent}
use service_identity_provide.Objects.{NamespacedName, Secret, ok, key_of}
use service_identity_provide.Resources.Certificates.{InternalCertificate}
use service_identity_provide.Resources.ClientCas.{InternalClientCa}
use service_identity_provide.Cluster.{Call, is_setup, World, returned}
use service_identity_provide.Cluster.Laws.{Secrets, key_eq, put, stored, owner_of}
use service_identity_provide.Cluster.Memory.{MemoryKube, MemoryVault, memory}
use service_identity_provide.Cluster.MemoryLaws.{memory-KubeLaws, memory-VaultLaws, memory-mounts}
use service_identity_provide.Pki.Setup.{
  enable_pki_interm_ca, tune_interm, urls_interm, role_interm, flag_interm, disable_flag,
  install_interm, sign_by_root, interm_role_request,
}
use service_identity_provide.Issuance.{
  AsksWritten, issue_server-AsksWritten, issue_client-AsksWritten,
}
use service_identity_provide.Cert.Reconciler.{issue_server, issue_client}
use service_identity_provide.Cert.Provision.{secrets_in}
use service_identity_provide.ClientCa.Setup.{
  role_request, client_ca_ttl, enable_request, enable_pki_client_ca,
}
use service_identity_provide.ClientCa.Reconciler.{
  mount_of, client_ca_path, reconcile_loaded, reconcile,
}
use service_identity_provide.ClientCa.Plan.{setup_plan, setup-Sent}
use service_identity_provide.ClientCa.Returned.{
  Kept, ReadSent, root_answer, tuned, enabled, root_trace, setup-returned,
}
use service_identity_provide.ClientCa.Branches.{listed_world}
use service_identity_provide.ClientCa.Outcome.{Provided, FromMount, FromSetup, reconcile-Provided}
use service_identity_provide.ClientCa.Repair.{IsMounted, setup_never_resumed}
use service_identity_provide.Cluster.Frame.{OnlyAt}
use service_identity_provide.ClientCa.Frame.{own_key, reconcile_ca-OnlyOwn}
use service_identity_provide.ClientCa.Mounts.{mount_of-eq_iff}

abbrev ca : InternalClientCa
ca = record {
  meta = record { namespace = "sip"; name = "web"; uid = "9" };
  spec = record {
    certificate = record { subject = record { cn = "web" } };
    secret = record { name = "web-ca"; cert_name = "ca.pem" };
  };
}

abbrev request : NamespacedName
request = record { namespace = "sip"; name = "web" }

-- The Secret that holds the root token, as the API server keeps it.
abbrev pub token_secret : Secret
token_secret = record {
  name = "vault-root-token";
  namespace = "sip";
  data_fields = ("token", "s.root") ∷ [];
  string_data = [];
  secret_type = "Opaque";
  owner = none;
}

abbrev start : Secrets → Bool → World MemoryKube MemoryVault
start secrets broken = record {
  kube = record {
    certificates = λ k. none;
    client_cas = λ k. if key_eq k request then some ca else none;
    secrets = secrets;
    unreadable = false;
    csr = none;
  };
  vault = record { mounts = []; broken = broken };
  trace = [];
}

abbrev with_token : Secrets
with_token = put token_secret (λ k. none)

mount : mount_of ca ≡ "sip-client-ca/web-ca"
unfolding mount_of
mount = refl

abbrev ca_secret : String → Secret
ca_secret cert = record {
  name = "web-ca";
  namespace = "sip";
  data_fields = [];
  string_data = ("ca.pem", cert) ∷ [];
  secret_type = "Opaque";
  owner = some (owner_of "InternalClientCA" ca.meta);
}

-- The first run stores the root's certificate.
first_run :
    let (o, w) = reconcile memory request (start with_token false) in
    (o ≡ returned tt)
    × (w.kube.secrets (key_of (ca_secret ""))
        ≡ put (ca_secret "ROOT") with_token (key_of (ca_secret "")))
unfolding reconcile
first_run = (refl, refl)

-- Without the root token it stores an empty certificate.
first_run_without_token :
    let (o, w) = reconcile memory request (start (λ k. none) false) in
    (o ≡ returned tt)
    × (w.kube.secrets (key_of (ca_secret ""))
        ≡ put (ca_secret "") (λ k. none) (key_of (ca_secret "")))
unfolding reconcile
first_run_without_token = (refl, refl)

setup-Sent_example :
    Sent
      (setup_plan memory ca "sip-client-ca/web-ca" "s.root")
      []
      (enable_pki_client_ca memory ca "sip-client-ca/web-ca" (start with_token false)).1.trace
unfolding field merge assign
setup-Sent_example =
    setup-Sent memory ca "sip-client-ca/web-ca" "s.root" (start with_token false) refl

setup-returned_example :
    let w = start with_token false in
    let path : String = "sip-client-ca/web-ca" in
    (root : String) × (root_answer memory path ca (tuned memory path (enabled memory path w.vault))
      ≡ ok root)
    × Kept (ok (stored token_secret)) root "ROOT"
    × ReadSent memory ca path
        (ok (stored token_secret))
        (root_trace memory ca path
          (ok (stored token_secret))
          (Call.tune_mount path client_ca_ttl ∷ Call.enable_engine path enable_request ∷ []))
        (enable_pki_client_ca memory ca path w).1.trace
unfolding enable_pki_client_ca
setup-returned_example =
    setup-returned memory ca "sip-client-ca/web-ca" (ok (stored token_secret))
      (start with_token false) "ROOT" refl refl

reconcile-Provided_example :
    let (o, w) = reconcile_loaded memory ca (start with_token false) in
    let K = secrets_in memory memory-KubeLaws in
    (has_mount (client_ca_path ca) [] ≡ true
      → Provided memory memory-KubeLaws ca
          (FromMount memory memory-KubeLaws ca (record { mounts = []; broken = false }))
          (K (start with_token false))
          o
          (K w))
    × (has_mount (client_ca_path ca) [] ≡ false
        → Provided memory memory-KubeLaws ca
            (FromSetup memory memory-KubeLaws ca (listed_world memory (start with_token false)))
            (K (start with_token false))
            o
            (K w))
reconcile-Provided_example =
    reconcile-Provided memory memory-KubeLaws ca (start with_token false) [] refl

-- A run that fails at the root, which Vault does not make, and a run in the cluster that it left,
-- with Vault repaired and all Secrets deleted.
abbrev repaired : World MemoryKube MemoryVault
repaired = start (λ k. none) false

abbrev later : World MemoryKube MemoryVault
later = record repaired { vault = record { mounts = "sip-client-ca/web-ca/" ∷ []; broken = false } }

later-IsMounted : IsMounted memory memory-VaultLaws ca later.vault
unfolding has_mount client_ca_path
later-IsMounted = ap (λ mounts. has_mount (client_ca_path ca) mounts) (memory-mounts later.vault)

setup_never_resumed_example :
    IsMounted memory memory-VaultLaws ca
      (reconcile_loaded memory ca (start with_token true)).1.vault
    × (count_if is_setup (reconcile_loaded memory ca later).1.trace ≡ count_if is_setup later.trace)
unfolding has_mount
setup_never_resumed_example =
    setup_never_resumed memory memory-VaultLaws ca (start with_token true) [] later refl refl refl
      later-IsMounted

abbrev taken : World MemoryKube MemoryVault
taken = start (put (ca_secret "OLD") with_token) false

abbrev certificate : InternalCertificate
certificate = record {
  meta = record { namespace = "sip"; name = "web"; uid = "7" };
  spec = record {
    certificate = record {
      issuer = record { reference = "web-ca" };
      subject = record { cn = "web" };
      extended_key_usage = record { client_auth = true; server_auth = false };
    };
    secret = record { name = "web-tls"; cert_name = "tls.crt"; key_name = "tls.key" };
  };
}

abbrev namesake : InternalClientCa
namesake = record ca { meta = record { namespace = "other"; name = "x"; uid = "1" } }

mount_of-eq_iff_example :
    (mount_of ca ≡ mount_of namesake)
    ↔ (ca.spec.certificate.subject.cn ≡ namesake.spec.certificate.subject.cn)
mount_of-eq_iff_example = mount_of-eq_iff ca namesake

-- Vault with the intermediate CA of the servers, and with the client CA.
interm_ready : (enable_pki_interm_ca memory "s.root" (start with_token false)).0 ≡ returned tt
unfolding enable_pki_interm_ca tune_interm urls_interm role_interm flag_interm disable_flag
    install_interm sign_by_root
interm_ready = refl

client_ready :
    (enable_pki_client_ca memory ca (mount_of ca) (start with_token false)).0 ≡ returned "ROOT"
unfolding enable_pki_client_ca
client_ready = refl

issue_server-AsksWritten_example :
    AsksWritten memory interm_role_request certificate []
      (issue_server memory certificate (start with_token false)).1.trace
      (enable_pki_interm_ca memory "s.root" (start with_token false)).1.trace
issue_server-AsksWritten_example =
    issue_server-AsksWritten memory certificate "s.root" (start with_token false)
      (start with_token false) interm_ready

issue_client-AsksWritten_example :
    AsksWritten memory role_request certificate []
      (issue_client memory certificate (start with_token false)).1.trace
      (enable_pki_client_ca memory ca (mount_of ca) (start with_token false)).1.trace
issue_client-AsksWritten_example =
    issue_client-AsksWritten memory certificate ca "ROOT" (start with_token false)
      (start with_token false) refl client_ready

reconcile_ca-OnlyOwn_example :
    OnlyAt
      (own_key ca)
      (memory-KubeLaws.secrets (start with_token false).kube)
      (memory-KubeLaws.secrets (reconcile memory request (start with_token false)).1.kube)
reconcile_ca-OnlyOwn_example =
    reconcile_ca-OnlyOwn memory memory-KubeLaws request (start with_token false)
