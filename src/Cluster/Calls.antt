-- ===== src/Cluster/Calls.antt =====
-- The requests that leave a program, with the parameters that the program chooses.
use service_identity_provide.Base.{String, ℕ, Bool, true, false, List}
use service_identity_provide.Objects.{NamespacedName, Secret, SigningRequest}

-- `schema.MountsEnableSecretsEngineRequest`
pub record EnableRequest : Type 0 where
  pub engine_type : String
  pub description : String

-- `schema.PkiGenerateRootRequest`
pub record RootRequest : Type 0 where
  pub common_name : String
  pub key_type : String
  pub key_bits : ℕ
  pub ttl : String

-- `schema.PkiConfigureUrlsRequest`
pub record UrlsRequest : Type 0 where
  pub issuing_certificates : List String
  pub crl_distribution_points : List String

-- `schema.PkiWriteRoleRequest`
pub record RoleRequest : Type 0 where
  pub allow_any_name : Bool
  pub key_type : String
  pub key_bits : ℕ
  pub key_usage : List String
  pub ext_key_usage : List String
  pub enforce_hostnames : Bool
  pub basic_constraints_valid_for_non_ca : Bool
  pub max_ttl : String

-- `schema.PkiGenerateIntermediateRequest`
pub record IntermediateRequest : Type 0 where
  pub common_name : String
  pub key_type : String
  pub key_bits : ℕ
  pub add_basic_constraints : Bool
  pub ttl : String

-- `schema.PkiRootSignIntermediateRequest`
pub record SignRequest : Type 0 where
  pub csr : String
  pub format : String
  pub use_csr_values : Bool
  pub ttl : String

-- `schema.PkiIssueWithRoleRequest`
pub record IssueRequest : Type 0 where
  pub common_name : String
  pub alt_names : String

-- `schema.PkiIssueWithRoleResponse`
pub record Issued : Type 0 where
  pub certificate : String
  pub private_key : String
  pub ca_chain : List String

-- What `ReadHealthStatus` answers.
pub record Health : Type 0 where
  pub initialized : Bool
  pub sealed : Bool

-- What `Initialize` answers.
pub record InitAnswer : Type 0 where
  pub keys_base64 : List String
  pub root_token : String

-- An `http.Request` with its headers, and whether the client verifies the server.
pub record HttpRequest : Type 0 where
  pub method : String
  pub url : String
  pub body : String
  pub content_type : String
  pub vault_token : String
  pub insecure_skip_verify : Bool

pub data Call : Type 0 where
  -- Kubernetes
  get_certificate get_client_ca get_secret : NamespacedName → Call
  create_secret update_secret : Secret → Call
  create_csr : SigningRequest → Call
  get_csr delete_csr : String → Call
  update_approval : String → SigningRequest → Call
  -- Vault
  list_mounts : Call
  enable_engine : String → EnableRequest → Call
  tune_mount : String → String → Call
  generate_root : String → RootRequest → String → Call
  configure_urls : UrlsRequest → String → Call
  write_role : String → RoleRequest → String → Call
  issue_with_role : String → IssueRequest → String → Call
  read_ca_chain : String → Call
  generate_intermediate : String → IntermediateRequest → String → Call
  sign_intermediate : SignRequest → String → Call
  set_signed : String → String → Call
  send_http : HttpRequest → Call
  read_health : Call
  initialize : ℕ → ℕ → Call
  unseal : String → String → Call

abbrev pub is_issue : Call → Bool
is_issue (issue_with_role role request mount) = true
is_issue _ = false

-- A request that changes the mounts or roles of Vault.
abbrev pub is_setup : Call → Bool
is_setup (enable_engine path request) = true
is_setup (tune_mount path ttl) = true
is_setup (generate_root exported request mount) = true
is_setup (configure_urls request mount) = true
is_setup (write_role role request mount) = true
is_setup (generate_intermediate exported request mount) = true
is_setup (sign_intermediate request mount) = true
is_setup (set_signed certificate mount) = true
is_setup (send_http request) = true
is_setup _ = false

abbrev pub is_secret_write : Call → Bool
is_secret_write (create_secret s) = true
is_secret_write (update_secret s) = true
is_secret_write _ = false

abbrev pub is_secret_read : Call → Bool
is_secret_read (get_secret k) = true
is_secret_read _ = false
