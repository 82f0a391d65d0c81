-- ===== src/Resources/Certificates.antt =====
-- InternalCertificate (operator/internal-cert/api/v1alpha1/internalcertificate_types.go). Embedded
-- structs are fields here.
use service_identity_provide.Base.{String, Bool}
use service_identity_provide.Objects.{ObjectMeta}

pub record Issuer : Type 0 where
  pub reference : String

pub record Subject : Type 0 where
  pub cn : String

pub record ExtendedKeyUsage : Type 0 where
  pub client_auth : Bool
  pub server_auth : Bool

pub record Certificate : Type 0 where
  pub issuer : Issuer
  pub subject : Subject
  pub extended_key_usage : ExtendedKeyUsage

pub record SecretRef : Type 0 where
  pub name : String
  pub cert_name : String
  pub key_name : String

pub record InternalCertificateSpec : Type 0 where
  pub certificate : Certificate
  pub secret : SecretRef

pub record InternalCertificate : Type 0 where
  pub meta : ObjectMeta
  pub spec : InternalCertificateSpec
