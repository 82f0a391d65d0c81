-- ===== src/Cluster/Memory.antt =====
-- A cluster in memory, which keeps the documented laws: it runs the tests.
use service_identity_provide.Base.{
  String, ◌<>◌, Bool, true, false, ◌&&◌, Option, none, some, List, [], ◌∷◌, if◌then◌else◌, not,
  str_eq,
}
use service_identity_provide.Objects.{
  NamespacedName, Secret, SigningRequest, not_found, already_exists, other, Result, ok, err, key_of,
}
use service_identity_provide.Resources.Certificates.{InternalCertificate}
use service_identity_provide.Resources.ClientCas.{InternalClientCa}
use service_identity_provide.Cluster.Calls.{Issued}
use service_identity_provide.Cluster.Interface.{Cluster}
use service_identity_provide.Cluster.Laws.{Secrets, key_eq, put, owner_of}

-- The API server. While `unreadable` is set, no Secret can be read.
pub record MemoryKube : Type 0 where
  pub certificates : NamespacedName → Option InternalCertificate
  pub client_cas : NamespacedName → Option InternalClientCa
  pub secrets : Secrets
  pub unreadable : Bool
  pub csr : Option SigningRequest

-- Vault. While `broken` is set, it makes no root.
pub record MemoryVault : Type 0 where
  pub mounts : List String
  pub broken : Bool

abbrev pub found {ℓ} : {A : Type 0} {S : Type ℓ} → Option A → S → Result A × S
found none s = (err not_found, s)
found (some a) s = (ok a, s)

abbrev pub is_empty {ℓ} : {A : Type ℓ} → List A → Bool
is_empty [] = true
is_empty (_ ∷ _) = false

-- A Secret is answered under its own name, without `stringData`.
abbrev pub well_formed : NamespacedName → Secret → Bool
well_formed k x = key_eq (key_of x) k && (is_empty x.string_data)

abbrev pub found_secret : NamespacedName → Option Secret → Result Secret
found_secret k none = err not_found
found_secret k (some x) = if well_formed k x then ok x else err (other "malformed")

abbrev pub read_secret : NamespacedName → MemoryKube → Result Secret × MemoryKube
read_secret k s = (if s.unreadable then err (other "timeout") else found_secret k (s.secrets k), s)

abbrev pub create_if_free : Option Secret → Secret → MemoryKube → Result (Unit {0}) × MemoryKube
create_if_free none x s = (ok tt, record s { secrets = put x s.secrets })
create_if_free (some _) x s = (err already_exists, s)

abbrev pub update_if_there : Option Secret → Secret → MemoryKube → Result (Unit {0}) × MemoryKube
update_if_there none x s = (err not_found, s)
update_if_there (some _) x s = (ok tt, record s { secrets = put x s.secrets })

abbrev pub create_csr_if_free :
    Option SigningRequest → SigningRequest → MemoryKube → Result (Unit {0}) × MemoryKube
create_csr_if_free none r s = (ok tt, record s { csr = some r })
create_csr_if_free (some _) r s = (err already_exists, s)

abbrev pub add_mount : String → MemoryVault → MemoryVault
add_mount path v = record v { mounts = (path <> "/") ∷ v.mounts }

abbrev pub issued : Issued
issued = record { certificate = "CERT"; private_key = "KEY"; ca_chain = "CA" ∷ "ROOT" ∷ [] }

abbrev pub env : String → String
env name =
    if str_eq name "VAULT_CLUSTER"
    then "vault-0,vault-1,vault-2"
    else if str_eq name "VAULT_K8S_NAMESPACE"
    then "sip"
    else "cluster.local"

abbrev pub memory : Cluster
memory = record {
  Kube = MemoryKube;
  kube_get_certificate = λ k s. found (s.certificates k) s;
  kube_get_client_ca = λ k s. found (s.client_cas k) s;
  kube_get_secret = read_secret;
  kube_create_secret = λ x s. create_if_free (s.secrets (key_of x)) x s;
  kube_update_secret = λ x s. update_if_there (s.secrets (key_of x)) x s;
  kube_create_csr = λ r s. create_csr_if_free s.csr r s;
  kube_get_csr = λ name s. found s.csr s;
  kube_delete_csr = λ name s. (ok tt, record s { csr = none });
  kube_update_approval =
      λ name r s. (ok tt, record s { csr = some (record r { certificate = "SIGNED" }) });
  Vault = MemoryVault;
  vault_list_mounts = λ v. (ok v.mounts, v);
  vault_enable_engine = λ path r v. (ok tt, add_mount path v);
  vault_tune_mount = λ path ttl v. (ok tt, v);
  vault_generate_root =
      λ exported r path v. (if v.broken then err (other "no entropy") else ok "ROOT", v);
  vault_configure_urls = λ r path v. (ok tt, v);
  vault_write_role = λ role r path v. (ok tt, v);
  vault_issue_with_role = λ role r path v. (ok issued, v);
  vault_read_ca_chain = λ path v. (ok "ROOT", v);
  vault_generate_intermediate = λ exported r path v. (ok "CSR", v);
  vault_sign_intermediate = λ r path v. (ok "SIGNED", v);
  vault_set_signed = λ cert path v. (ok tt, v);
  vault_send_http = λ r v. (ok tt, v);
  vault_read_health = λ v. (ok (record { initialized = false; sealed = true }), v);
  vault_initialize =
      λ shares threshold v. (ok (record { keys_base64 = "UNSEAL" ∷ []; root_token = "s.root" }), v);
  vault_unseal = λ node key v. (ok tt, v);
  in_cluster_config = ok tt;
  accepts_config = true;
  read_file = λ path. ok "sip";
  accepts_url = λ url. true;
  accepts_address = λ address. true;
  accepts_token = λ token. not (str_eq token "");
  getenv = env;
  generate_key = ok "KEY";
  marshal_key = λ key. ok key;
  create_request = λ template key. ok "REQUEST";
  pem_encode = λ kind bytes. kind <> (": " <> bytes);
  set_controller_reference = λ kind m s. ok (record s { owner = some (owner_of kind m) });
}
