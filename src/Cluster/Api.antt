-- ===== src/Cluster/Api.antt =====
-- The methods as calls of a program: each is recorded, and its error is returned to the caller.
use service_identity_provide.Base.{ℕ, String, List}
use service_identity_provide.Objects.{NamespacedName, Secret, SigningRequest}
use service_identity_provide.Resources.Certificates.{InternalCertificate}
use service_identity_provide.Resources.ClientCas.{InternalClientCa}
use service_identity_provide.Cluster.Calls.{
  EnableRequest, RootRequest, UrlsRequest, RoleRequest, IssueRequest, Issued, HttpRequest, Call,
  IntermediateRequest, SignRequest, Health, InitAnswer,
}
use service_identity_provide.Cluster.Effects.{M, ask_kube, ask_vault}
use service_identity_provide.Cluster.Interface.{Cluster}

module _ (c : Cluster) where
  abbrev pub Go : Type 0 → Type 0
  Go A = M c.Kube c.Vault A

  abbrev pub get_certificate : NamespacedName → Go InternalCertificate
  get_certificate k = ask_kube (Call.get_certificate k) (c.kube_get_certificate k)

  abbrev pub get_client_ca : NamespacedName → Go InternalClientCa
  get_client_ca k = ask_kube (Call.get_client_ca k) (c.kube_get_client_ca k)

  abbrev pub get_secret : NamespacedName → Go Secret
  get_secret k = ask_kube (Call.get_secret k) (c.kube_get_secret k)

  abbrev pub create_secret : Secret → Go (Unit {0})
  create_secret s = ask_kube (Call.create_secret s) (c.kube_create_secret s)

  abbrev pub update_secret : Secret → Go (Unit {0})
  update_secret s = ask_kube (Call.update_secret s) (c.kube_update_secret s)

  abbrev pub create_csr : SigningRequest → Go (Unit {0})
  create_csr r = ask_kube (Call.create_csr r) (c.kube_create_csr r)

  abbrev pub get_csr : String → Go SigningRequest
  get_csr name = ask_kube (Call.get_csr name) (c.kube_get_csr name)

  abbrev pub delete_csr : String → Go (Unit {0})
  delete_csr name = ask_kube (Call.delete_csr name) (c.kube_delete_csr name)

  abbrev pub update_approval : String → SigningRequest → Go (Unit {0})
  update_approval name r = ask_kube (Call.update_approval name r) (c.kube_update_approval name r)

  abbrev pub list_mounts : Go (List String)
  list_mounts = ask_vault Call.list_mounts c.vault_list_mounts

  abbrev pub enable_engine : String → EnableRequest → Go (Unit {0})
  enable_engine path r = ask_vault (Call.enable_engine path r) (c.vault_enable_engine path r)

  abbrev pub tune_mount : String → String → Go (Unit {0})
  tune_mount path ttl = ask_vault (Call.tune_mount path ttl) (c.vault_tune_mount path ttl)

  abbrev pub generate_root : String → RootRequest → String → Go String
  generate_root exported r mount =
      ask_vault (Call.generate_root exported r mount) (c.vault_generate_root exported r mount)

  abbrev pub configure_urls : UrlsRequest → String → Go (Unit {0})
  configure_urls r mount = ask_vault (Call.configure_urls r mount) (c.vault_configure_urls r mount)

  abbrev pub write_role : String → RoleRequest → String → Go (Unit {0})
  write_role role r mount =
      ask_vault (Call.write_role role r mount) (c.vault_write_role role r mount)

  abbrev pub issue_with_role : String → IssueRequest → String → Go Issued
  issue_with_role role r mount =
      ask_vault (Call.issue_with_role role r mount) (c.vault_issue_with_role role r mount)

  abbrev pub read_ca_chain : String → Go String
  read_ca_chain mount = ask_vault (Call.read_ca_chain mount) (c.vault_read_ca_chain mount)

  abbrev pub generate_intermediate : String → IntermediateRequest → String → Go String
  generate_intermediate exported r mount =
      ask_vault (Call.generate_intermediate exported r mount)
        (c.vault_generate_intermediate exported r mount)

  abbrev pub sign_intermediate : SignRequest → String → Go String
  sign_intermediate r mount =
      ask_vault (Call.sign_intermediate r mount) (c.vault_sign_intermediate r mount)

  abbrev pub set_signed : String → String → Go (Unit {0})
  set_signed certificate mount =
      ask_vault (Call.set_signed certificate mount) (c.vault_set_signed certificate mount)

  abbrev pub send_http : HttpRequest → Go (Unit {0})
  send_http r = ask_vault (Call.send_http r) (c.vault_send_http r)

  abbrev pub read_health : Go Health
  read_health = ask_vault Call.read_health c.vault_read_health

  abbrev pub initialize : ℕ → ℕ → Go InitAnswer
  initialize shares threshold =
      ask_vault (Call.initialize shares threshold) (c.vault_initialize shares threshold)

  -- The request goes to one node of Vault, with the key.
  abbrev pub unseal : String → String → Go (Unit {0})
  unseal node key = ask_vault (Call.unseal node key) (c.vault_unseal node key)
