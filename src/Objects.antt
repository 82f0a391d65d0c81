-- ===== src/Objects.antt =====
-- The Kubernetes objects that the programs read and write, and the replies of an API.
use service_identity_provide.Base.{ℕ, String, Option, Bool, true, false, List}
use service_identity_provide.Base.Fields.{Fields}

-- `types.NamespacedName`, the key of an object and of a `ctrl.Request`.
pub record NamespacedName : Type 0 where
  pub namespace : String
  pub name : String

-- The fields of `metav1.ObjectMeta` that the programs read.
pub record ObjectMeta : Type 0 where
  pub namespace : String
  pub name : String
  pub uid : String

-- The owner reference that `SetControllerReference` writes.
pub record OwnerReference : Type 0 where
  pub kind : String
  pub name : String
  pub uid : String

-- `corev1.Secret`: the API server merges `string_data` into `data` when it stores one.
pub record Secret : Type 0 where
  pub name : String
  pub namespace : String
  pub data_fields : Fields
  pub string_data : Fields
  pub secret_type : String
  pub owner : Option OwnerReference

-- The kinds of error that the programs tell apart.
pub data Error : Type 0 where
  not_found already_exists invalid : Error
  other : String → Error

-- Go's pair of a value and an error.
pub data Result (A : Type 0) : Type 0 where
  ok : A → Result A
  err : Error → Result A

-- `apierrors.IsNotFound`
abbrev pub is_not_found : Error → Bool
is_not_found not_found = true
is_not_found _ = false

-- `apierrors.IsAlreadyExists`
abbrev pub is_already_exists : Error → Bool
is_already_exists already_exists = true
is_already_exists _ = false

abbrev pub key_of : Secret → NamespacedName
key_of s = record { namespace = s.namespace; name = s.name }

-- A `CertificateSigningRequestCondition`, without its time.
pub record Condition : Type 0 where
  pub condition_type : String
  pub reason : String
  pub message : String
  pub status : String

-- A `CertificateSigningRequest`: its name, what is asked for, its conditions and the certificate.
pub record SigningRequest : Type 0 where
  pub name : String
  pub signer_name : String
  pub expiration_seconds : ℕ
  pub request : String
  pub usages : List String
  pub conditions : List Condition
  pub certificate : String

-- The `x509.CertificateRequest` that a program fills in.
pub record RequestTemplate : Type 0 where
  pub organization : List String
  pub common_name : String
  pub signature_algorithm : String
  pub dns_names : List String
  pub ip_addresses : List String
