-- ===== src/Startup.antt =====
-- The statements by which the programs of the cluster begin: the variables and the `init` of
-- operator/internal-cert/cmd/main.go, operator/internal-client-ca/cmd/main.go and
-- vault/client-go/pki/main.go share them, and `enablePKIClientCA` has some of them too.
use service_identity_provide.Base.{String, Bool, true, false}
use service_identity_provide.Base.Fields.{field}
use service_identity_provide.Objects.{NamespacedName, Result, ok, err}
use service_identity_provide.Cluster.{
  Cluster, Outcome, returned, panicked, exited, outcome_of, and_then, ◌>>=◌, pure, lift, or_fatal,
}
use service_identity_provide.Cluster.Api.{Go, get_secret}

abbrev namespace_file : String
namespace_file = "/var/run/secrets/kubernetes.io/serviceaccount/namespace"

-- `os.ReadFile` whose error is dropped: the text is empty then.
abbrev pub text_or_empty : Result String → String
text_or_empty (ok text) = text
text_or_empty (err e) = ""

abbrev pub vault_service_address : String
vault_service_address = "https://vault-internal:8200"

-- `log.Fatal` unless a test is passed.
abbrev pub go_on_if : Bool → Outcome (Unit {0})
go_on_if true = returned tt
go_on_if false = exited 1

abbrev pub returned_or_panicked : Bool → Outcome (Unit {0})
returned_or_panicked true = returned tt
returned_or_panicked false = panicked

module _ (c : Cluster) where
  -- `ns`
  abbrev pub pod_namespace : String
  pod_namespace = text_or_empty (c.read_file namespace_file)

  abbrev pub root_token_key : NamespacedName
  root_token_key = record { namespace = pod_namespace; name = "vault-root-token" }

  -- `rest.InClusterConfig` and `kubernetes.NewForConfigOrDie`.
  abbrev pub connect : Go c (Unit {0})
  connect =
      lift (and_then (outcome_of c.in_cluster_config) (λ _. returned_or_panicked c.accepts_config))

  -- `vault.New` and `SetToken`, whose errors are fatal: the token of the client.
  unfoldable pub client_with_token : String → Go c String
  client_with_token token = lift (go_on_if (c.accepts_address vault_service_address)) >>= λ _.
      lift (go_on_if (c.accepts_token token)) >>= λ _. pure token

  -- The root token, whose read error is fatal.
  unfoldable pub need_root_token : Go c String
  unfolding field
  need_root_token =
      or_fatal (get_secret c root_token_key) >>= λ s. pure (field s.data_fields "token")
