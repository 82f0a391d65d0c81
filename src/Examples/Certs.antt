-- ===== src/Examples/Certs.antt =====
-- The InternalCertificate operator on concrete resources.
use service_identity_provide.Base.{
  String, ◌≡◌, ◌≢◌, ◌↔◌, refl, Bool, true, false, none, some, [], ◌∷◌, ◌+◌, if◌then◌else◌,
}
use service_identity_provide.Base.Fields.{field?}
use service_identity_provide.Base.Lists.{count_if}
use service_identity_provide.Objects.{NamespacedName, Secret, other, key_of}
use service_identity_provide.Resources.Certificates.{InternalCertificate}
use service_identity_provide.Cluster.{Call, is_secret_read, World, returned}
use service_identity_provide.Cluster.Laws.{Secrets, key_eq, stored, owner_of}
use service_identity_provide.Cluster.Memory.{MemoryKube, MemoryVault, memory, issued}
use service_identity_provide.Cluster.MemoryLaws.{memory-KubeLaws}
use service_identity_provide.Cert.Webhook.{validate_create, validate_update, validate_delete}
use service_identity_provide.Cert.Reconciler.{
  alt_names, secret_key, secret_literal, stored_cert, build_secret_from, reconcile_loaded,
  reconcile,
}
use service_identity_provide.Cert.Requests.{
  Bounded, Good, reconcile-Bounded, reconcile_loaded-Permitted,
}
use service_identity_provide.Cert.Provision.{secrets_in, Provisioned, client_answer}
use service_identity_provide.Cert.Content.{built-stored}
use service_identity_provide.Cert.Outcome.{
  RunEffect, reconcile_loaded-provides, reconcile-client_read_failure, reconcile-server_success,
}
use service_identity_provide.Cluster.Frame.{OnlyAt}
use service_identity_provide.Cert.Frame.{reconcile-OnlyOwn}
use service_identity_provide.Cert.Settled.{OnlyRead, reconcile_twice}
use service_identity_provide.Cert.Admission.{reads, admitted_iff, admitted_reconciles}

-- A resource with the given usages and names of the two fields.
abbrev resource : Bool → Bool → String → String → InternalCertificate
resource client server cert_name key_name = record {
  meta = record { namespace = "sip"; name = "web"; uid = "7" };
  spec = record {
    certificate = record {
      issuer = record { reference = "web-ca" };
      subject = record { cn = "web" };
      extended_key_usage = record { client_auth = client; server_auth = server };
    };
    secret = record { name = "web-tls"; cert_name = cert_name; key_name = key_name };
  };
}

abbrev server : InternalCertificate
server = resource false true "tls.crt" "tls.key"

abbrev client : InternalCertificate
client = resource true false "tls.crt" "tls.key"

abbrev request : NamespacedName
request = record { namespace = "sip"; name = "web" }

abbrev no_secrets : Secrets
no_secrets k = none

abbrev start : Bool → InternalCertificate → World MemoryKube MemoryVault
start unreadable cr = record {
  kube = record {
    certificates = λ k. if key_eq k request then some cr else none;
    client_cas = λ k. none;
    secrets = no_secrets;
    unreadable = unreadable;
    csr = none;
  };
  vault = record { mounts = []; broken = false };
  trace = [];
}

-- The Secret that the server resource gets.
abbrev server_secret : Secret
server_secret = record {
  name = "web-tls";
  namespace = "sip";
  data_fields = [];
  string_data = ("tls.key", "KEY") ∷ ("tls.crt", "CERT\nCA") ∷ [];
  secret_type = "Opaque";
  owner = some (owner_of "InternalCertificate" server.meta);
}

names : alt_names "web" ≡ "web, web.sip, web.sip.svc, web.sip.svc.cluster.local"
unfolding alt_names
names = refl

server_run :
    (reconcile memory request (start false server)).1.trace
    ≡ Call.create_secret server_secret
      ∷ Call.issue_with_role "interm-ca"
          (record { common_name = "web"; alt_names = alt_names "web" })
          "sip-interm-ca"
      ∷ Call.get_secret (record { namespace = "sip"; name = "web-tls" })
      ∷ Call.get_certificate request
      ∷ []
unfolding reconcile
server_run = refl

reconcile-Bounded_example : Bounded [] (reconcile memory request (start false server)).1.trace
reconcile-Bounded_example = reconcile-Bounded memory request (start false server)

reconcile_loaded-Permitted_example :
    Good memory
      (record { mounts = []; broken = false })
      "sip"
      client
      (reconcile_loaded memory "sip" client (start false client)).1
reconcile_loaded-Permitted_example =
    reconcile_loaded-Permitted memory "sip" client (start false client) tt

accepted_server : false ≢ true
accepted_server h = cc

accepted_client : true ≢ false
accepted_client h = cc

reconcile_loaded-provides_example :
    let (o, w) = reconcile_loaded memory "sip" server (start false server) in
    RunEffect memory memory-KubeLaws server "sip" (start false server) o w
reconcile_loaded-provides_example =
    reconcile_loaded-provides memory memory-KubeLaws server "sip" (start false server)
      accepted_server refl

reconcile_twice_example :
    OnlyRead memory memory-KubeLaws server "sip"
      (reconcile_loaded memory "sip" server (start false server)).1
unfolding reconcile_loaded
reconcile_twice_example =
    reconcile_twice memory memory-KubeLaws server "sip" (start false server) accepted_server refl
      refl refl (λ missing. cc) (λ impossible. absurd (accepted_server impossible))

reconcile-client_read_failure_example :
    Provisioned memory memory-KubeLaws client
      (client_answer memory memory-KubeLaws client (record { mounts = []; broken = false }))
      (secrets_in memory memory-KubeLaws (start true client))
      (secrets_in memory memory-KubeLaws
        (reconcile_loaded memory "sip" client (start true client)).1)
unfolding reconcile_loaded
reconcile-client_read_failure_example =
    reconcile-client_read_failure memory memory-KubeLaws client "sip" (start true client)
      (other "timeout") refl refl refl

unread_succeeds : (reconcile_loaded memory "sip" server (start true server)).0 ≡ returned tt
unfolding reconcile_loaded
unread_succeeds = refl

reconcile-server_success_example :
    (secrets_in memory memory-KubeLaws (reconcile_loaded memory "sip" server (start true server)).1
      ≡ secrets_in memory memory-KubeLaws (start true server))
    × ((reconcile_loaded memory "sip" server (start true server)).1.trace
        ≡ Call.get_secret (secret_key "sip" server) ∷ [])
reconcile-server_success_example =
    reconcile-server_success memory memory-KubeLaws server "sip" (start true server) refl refl
      unread_succeeds

built_server : build_secret_from memory server issued ≡ returned server_secret
unfolding build_secret_from stored_cert secret_literal
built_server = refl

built-stored_example :
    (key_of server_secret ≡ secret_key "sip" server)
    × (server_secret.owner ≡ some (owner_of "InternalCertificate" server.meta))
    × (field? (stored server_secret).data_fields "tls.crt" ≡ some "CERT\nCA")
    × (server.spec.secret.cert_name ≢ server.spec.secret.key_name
        → field? (stored server_secret).data_fields "tls.key" ≡ some "KEY")
built-stored_example = built-stored memory memory-KubeLaws server issued server_secret built_server

admitted_iff_example :
    (((validate_create server).1 ≡ none) ↔ (false ≢ true))
    × (((validate_update server client).1 ≡ none) ↔ (false ≢ true))
    × ((validate_delete server).1 ≡ none)
admitted_iff_example = admitted_iff server client

admitted_client : (validate_create client).1 ≡ none
unfolding validate_create
admitted_client = refl

admitted_reconciles_example :
    let w = (reconcile_loaded memory "sip" client (start false client)).1 in
    (count_if (reads (secret_key "sip" client)) w.trace ≡ 0 + 1)
    × (count_if is_secret_read w.trace ≡ 0 + 1)
admitted_reconciles_example =
    admitted_reconciles client memory "sip" (start false client) admitted_client

reconcile-OnlyOwn_example :
    OnlyAt
      (secret_key "sip" server)
      (secrets_in memory memory-KubeLaws (start false server))
      (secrets_in memory memory-KubeLaws (reconcile memory request (start false server)).1)
reconcile-OnlyOwn_example = reconcile-OnlyOwn memory memory-KubeLaws request (start false server)
