-- ===== src/Cert/Webhook.antt =====
-- The admission webhook (operator/internal-cert/api/v1alpha1/internalcertificate_webhook.go). The
-- text of a `field.Error` is its path and its detail.
use service_identity_provide.Base.{String, Option, none, some, List, [], ◌∷◌, ◌++◌}
use service_identity_provide.Base.{if◌then◌else◌, bool_eq}
use service_identity_provide.Resources.Certificates.{Certificate, InternalCertificate}

-- `field.Error`: the path, the value that was refused and the reason.
pub record FieldError : Type 0 where
  pub path : List String
  pub bad_value : Certificate
  pub detail : String

-- `apierrors.NewInvalid`
pub record InvalidError : Type 0 where
  pub group : String
  pub kind : String
  pub name : String
  pub errors : List FieldError

-- `Default`, which fills nothing in.
unfoldable pub default : InternalCertificate → InternalCertificate
default r = r

validate_certificate : Certificate → List String → Option FieldError
validate_certificate certificate fld_path =
    if bool_eq certificate.extended_key_usage.server_auth certificate.extended_key_usage.client_auth
    then some (record {
      path = fld_path;
      bad_value = certificate;
      detail = "clientAuth and serverAuth cannot both be true or both be false";
    })
    else none

validate_internal_certificate_spec : InternalCertificate → Option FieldError
validate_internal_certificate_spec r =
    validate_certificate r.spec.certificate ("spec" ∷ "certificate" ∷ [])

-- `append(allErrs, err)` where the error is not nil
abbrev append_error : Option FieldError → List FieldError → List FieldError
append_error none errs = errs
append_error (some e) errs = errs ++ (e ∷ [])

abbrev invalid_unless_nil : String → List FieldError → Option InvalidError
invalid_unless_nil name [] = none
invalid_unless_nil name (e ∷ es) =
    some
      (record { group = "sip.sec.com"; kind = "InternalCertificate"; name = name; errors = e ∷ es })

-- `none` is a nil error.
validate_internal_certificate : InternalCertificate → Option InvalidError
unfolding validate_internal_certificate_spec validate_certificate
validate_internal_certificate r =
    invalid_unless_nil r.meta.name (append_error (validate_internal_certificate_spec r) [])

-- The warnings are always nil.
unfoldable pub validate_create : InternalCertificate → List String × Option InvalidError
unfolding validate_internal_certificate
validate_create r = ([], validate_internal_certificate r)

unfoldable pub validate_update :
    InternalCertificate → InternalCertificate → List String × Option InvalidError
unfolding validate_internal_certificate
validate_update r old = ([], validate_internal_certificate r)

unfoldable pub validate_delete : InternalCertificate → List String × Option InvalidError
validate_delete r = ([], none)
