-- ===== src/Resources/ClientCas.antt =====
-- InternalClientCA (operator/internal-client-ca/api/v1alpha1/internalclientca_types.go). Embedded
-- structs are fields here.
use service_identity_provide.Base.{String}
use service_identity_provide.Objects.{ObjectMeta}

pub record Subject : Type 0 where
  pub cn : String

pub record Certificate : Type 0 where
  pub subject : Subject

pub record SecretRef : Type 0 where
  pub name : String
  pub cert_name : String

pub record InternalClientCaSpec : Type 0 where
  pub certificate : Certificate
  pub secret : SecretRef

pub record InternalClientCa : Type 0 where
  pub meta : ObjectMeta
  pub spec : InternalClientCaSpec
