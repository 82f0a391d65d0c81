-- ===== src/Cluster/Interface.antt =====
-- What the programs use of Kubernetes, of Vault and of their pod.
use service_identity_provide.Base.{ℕ, String, Bool, List}
use service_identity_provide.Objects.{
  NamespacedName, ObjectMeta, Secret, SigningRequest, RequestTemplate, Result,
}
use service_identity_provide.Resources.Certificates.{InternalCertificate}
use service_identity_provide.Resources.ClientCas.{InternalClientCa}
use service_identity_provide.Cluster.Calls.{
  EnableRequest, RootRequest, UrlsRequest, RoleRequest, IssueRequest, Issued, HttpRequest,
  IntermediateRequest, SignRequest, Health, InitAnswer,
}

-- Every method of a service may change its state, also where it fails: nothing is assumed here.
pub record Cluster : Type 1 where
  -- Kubernetes: `client.Client` and `kubernetes.Clientset`
  pub Kube : Type 0
  pub kube_get_certificate : NamespacedName → Kube → Result InternalCertificate × Kube
  pub kube_get_client_ca : NamespacedName → Kube → Result InternalClientCa × Kube
  pub kube_get_secret : NamespacedName → Kube → Result Secret × Kube
  pub kube_create_secret : Secret → Kube → Result (Unit {0}) × Kube
  pub kube_update_secret : Secret → Kube → Result (Unit {0}) × Kube
  pub kube_create_csr : SigningRequest → Kube → Result (Unit {0}) × Kube
  pub kube_get_csr : String → Kube → Result SigningRequest × Kube
  pub kube_delete_csr : String → Kube → Result (Unit {0}) × Kube
  pub kube_update_approval : String → SigningRequest → Kube → Result (Unit {0}) × Kube
  -- Vault: `vault.Client`, and its HTTP interface
  pub Vault : Type 0
  pub vault_list_mounts : Vault → Result (List String) × Vault
  pub vault_enable_engine : String → EnableRequest → Vault → Result (Unit {0}) × Vault
  pub vault_tune_mount : String → String → Vault → Result (Unit {0}) × Vault
  pub vault_generate_root : String → RootRequest → String → Vault → Result String × Vault
  pub vault_configure_urls : UrlsRequest → String → Vault → Result (Unit {0}) × Vault
  pub vault_write_role : String → RoleRequest → String → Vault → Result (Unit {0}) × Vault
  pub vault_issue_with_role : String → IssueRequest → String → Vault → Result Issued × Vault
  pub vault_read_ca_chain : String → Vault → Result String × Vault
  pub vault_generate_intermediate :
      String → IntermediateRequest → String → Vault → Result String × Vault
  pub vault_sign_intermediate : SignRequest → String → Vault → Result String × Vault
  pub vault_set_signed : String → String → Vault → Result (Unit {0}) × Vault
  pub vault_send_http : HttpRequest → Vault → Result (Unit {0}) × Vault
  pub vault_read_health : Vault → Result Health × Vault
  pub vault_initialize : ℕ → ℕ → Vault → Result InitAnswer × Vault
  pub vault_unseal : String → String → Vault → Result (Unit {0}) × Vault
  -- the pod: `rest.InClusterConfig`, whether `kubernetes.NewForConfigOrDie` takes that
  -- configuration, `os.ReadFile`, and the URLs that `http.NewRequest` accepts
  pub in_cluster_config : Result (Unit {0})
  pub accepts_config : Bool
  pub read_file : String → Result String
  pub accepts_url : String → Bool
  -- whether `vault.New` makes a client for an address, and whether its `SetToken` takes a token
  pub accepts_address : String → Bool
  pub accepts_token : String → Bool
  -- `os.Getenv`, which is empty for a variable that is not set
  pub getenv : String → String
  -- a fresh key pair from `crypto/ecdsa` in DER and the `x509` request that it signs, which draw on
  -- the random source of the pod, and `pem.EncodeToMemory`
  pub generate_key : Result String
  pub marshal_key : String → Result String
  pub create_request : RequestTemplate → String → Result String
  pub pem_encode : String → String → String
  -- `ctrl.SetControllerReference` for an owner of the given kind
  pub set_controller_reference : String → ObjectMeta → Secret → Result Secret
