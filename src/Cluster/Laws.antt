-- ===== src/Cluster/Laws.antt =====
-- What the programs rely on, as documented by Kubernetes: how each request moves the Secrets that
-- the API server holds. A request may fail at any time; one that fails stores nothing.
use service_identity_provide.Base.{
  String, ◌<>◌, List, true, Bool, ◌&&◌, Option, none, some, ◌≡◌, ◌≢◌, if◌then◌else◌, str_eq, [],
}
use service_identity_provide.Base.Fields.{merge}
use service_identity_provide.Base.Lists.{has_mount}
use service_identity_provide.Objects.{
  NamespacedName, ObjectMeta, OwnerReference, Secret, SigningRequest, Result, ok, err, not_found,
  already_exists, key_of,
}
use service_identity_provide.Cluster.Calls.{
  EnableRequest, RootRequest, UrlsRequest, RoleRequest, IssueRequest, HttpRequest,
}
use service_identity_provide.Cluster.Interface.{Cluster}

abbrev pub key_eq : NamespacedName → NamespacedName → Bool
key_eq j k = str_eq j.namespace k.namespace && str_eq j.name k.name

-- What the API server keeps of a Secret: `stringData` is written over `data`.
abbrev pub stored : Secret → Secret
stored s = record s { data_fields = merge s.data_fields s.string_data; string_data = [] }

-- The Secrets of a cluster, by key.
abbrev pub Secrets : Type 0
Secrets = NamespacedName → Option Secret

abbrev pub put : Secret → Secrets → Secrets
put s m k = if key_eq (key_of s) k then some (stored s) else m k

abbrev pub owner_of : String → ObjectMeta → OwnerReference
owner_of kind m = record { kind = kind; name = m.name; uid = m.uid }

-- The Secrets after a write, by its reply.
abbrev pub written : Secret → Result (Unit {0}) → Secrets → Secrets
written s (ok _) m = put s m
written s (err _) m = m

pub record KubeLaws (c : Cluster) : Type 0 where
  pub secrets : c.Kube → Secrets
  pub get_certificate_keeps :
      (k : NamespacedName) (s : c.Kube) → secrets (c.kube_get_certificate k s).1 ≡ secrets s
  pub get_client_ca_keeps :
      (k : NamespacedName) (s : c.Kube) → secrets (c.kube_get_client_ca k s).1 ≡ secrets s
  pub get_secret_keeps :
      (k : NamespacedName) (s : c.Kube) → secrets (c.kube_get_secret k s).1 ≡ secrets s
  pub create_csr_keeps :
      (r : SigningRequest) (s : c.Kube) → secrets (c.kube_create_csr r s).1 ≡ secrets s
  pub get_csr_keeps : (name : String) (s : c.Kube) → secrets (c.kube_get_csr name s).1 ≡ secrets s
  pub delete_csr_keeps :
      (name : String) (s : c.Kube) → secrets (c.kube_delete_csr name s).1 ≡ secrets s
  pub update_approval_keeps :
      (name : String) (r : SigningRequest) (s : c.Kube)
      → secrets (c.kube_update_approval name r s).1 ≡ secrets s
  pub get_secret_found :
      (k : NamespacedName) (s : c.Kube) (x : Secret)
      → (c.kube_get_secret k s).0 ≡ ok x
      → secrets s k ≡ some x
  pub get_secret_named :
      (k : NamespacedName) (s : c.Kube) (x : Secret)
      → (c.kube_get_secret k s).0 ≡ ok x
      → (key_of x ≡ k) × (x.string_data ≡ [])
  pub create_writes :
      (x : Secret) (s : c.Kube)
      → secrets (c.kube_create_secret x s).1 ≡ written x (c.kube_create_secret x s).0 (secrets s)
  pub create_ok :
      (x : Secret) (s : c.Kube) → (c.kube_create_secret x s).0 ≡ ok tt → secrets s (key_of x) ≡ none
  pub create_taken :
      (x : Secret) (s : c.Kube)
      → (c.kube_create_secret x s).0 ≡ err already_exists
      → secrets s (key_of x) ≢ none
  pub update_writes :
      (x : Secret) (s : c.Kube)
      → secrets (c.kube_update_secret x s).1 ≡ written x (c.kube_update_secret x s).0 (secrets s)
  pub update_missing :
      (x : Secret) (s : c.Kube)
      → (c.kube_update_secret x s).0 ≡ err not_found
      → secrets s (key_of x) ≡ none
  -- `SetControllerReference` sets the owner and nothing else.
  pub owner_set :
      (kind : String) (m : ObjectMeta) (x y : Secret)
      → c.set_controller_reference kind m x ≡ ok y
      → y ≡ record x { owner = some (owner_of kind m) }

-- What the programs rely on, as documented by Vault: an engine that was enabled is listed under
-- its path with a slash at the end, and stays listed.
pub record VaultLaws (c : Cluster) : Type 0 where
  pub mounts : c.Vault → List String
  pub list_ok : (v : c.Vault) (ms : List String) → (c.vault_list_mounts v).0 ≡ ok ms → ms ≡ mounts v
  pub list_keeps : (v : c.Vault) → mounts (c.vault_list_mounts v).1 ≡ mounts v
  pub enable_lists :
      (path : String) (r : EnableRequest) (v : c.Vault)
      → (c.vault_enable_engine path r v).0 ≡ ok tt
      → has_mount (path <> "/") (mounts (c.vault_enable_engine path r v).1) ≡ true
  pub tune_keeps :
      (path ttl : String) (v : c.Vault) → mounts (c.vault_tune_mount path ttl v).1 ≡ mounts v
  pub root_keeps :
      (exported : String) (r : RootRequest) (path : String) (v : c.Vault)
      → mounts (c.vault_generate_root exported r path v).1 ≡ mounts v
  pub urls_keeps :
      (r : UrlsRequest) (path : String) (v : c.Vault)
      → mounts (c.vault_configure_urls r path v).1 ≡ mounts v
  pub role_keeps :
      (role : String) (r : RoleRequest) (path : String) (v : c.Vault)
      → mounts (c.vault_write_role role r path v).1 ≡ mounts v
  pub chain_keeps :
      (path : String) (v : c.Vault) → mounts (c.vault_read_ca_chain path v).1 ≡ mounts v
  pub issue_keeps :
      (role : String) (r : IssueRequest) (path : String) (v : c.Vault)
      → mounts (c.vault_issue_with_role role r path v).1 ≡ mounts v
  pub http_keeps : (r : HttpRequest) (v : c.Vault) → mounts (c.vault_send_http r v).1 ≡ mounts v
