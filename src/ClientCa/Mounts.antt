-- ===== src/ClientCa/Mounts.antt =====
-- Where the client CA of a resource is mounted, and which certificates are issued from it.
use text.Mathlib.TextLemmas.{append_assoc, append_cancel_left, append_cancel_right}
use service_identity_provide.Base.{String, ◌<>◌, ◌≡◌, ◌↔◌, sym, ◌∙◌, ap}
use service_identity_provide.Base.Suffix.{trim_suffix, trim_suffix-append}
use service_identity_provide.Resources.ClientCas.{InternalClientCa}
use service_identity_provide.Resources.Certificates.{InternalCertificate}
use service_identity_provide.Cert.Reconciler.{client_mount}
use service_identity_provide.ClientCa.Reconciler.{client_ca_path, mount_of}

abbrev ca_mount : InternalClientCa → String
ca_mount ca = "sip-client-ca/" <> (ca.spec.certificate.subject.cn <> "-ca")

client_ca_path-eq : (ca : InternalClientCa) → client_ca_path ca ≡ ca_mount ca <> "/"
unfolding client_ca_path
client_ca_path-eq ca =
    append_assoc prefix cn "-ca/"
    ∙ ap (λ t. prefix <> t) (sym (append_assoc cn "-ca" "/"))
    ∙ sym (append_assoc prefix (cn <> "-ca") "/")
  where
    open ca.spec.certificate.subject use {cn}

    prefix : String
    prefix = "sip-client-ca/"

pub mount_of-eq : (ca : InternalClientCa) → mount_of ca ≡ ca_mount ca
unfolding mount_of
mount_of-eq ca =
    ap (λ p. trim_suffix p "/") (client_ca_path-eq ca) ∙ trim_suffix-append (ca_mount ca) "/"

pub client_ca_path-mount_of : (ca : InternalClientCa) → client_ca_path ca ≡ mount_of ca <> "/"
client_ca_path-mount_of ca = client_ca_path-eq ca ∙ ap (λ m. m <> "/") (sym (mount_of-eq ca))

-- The mount is the listed path without its last slash, and the certificates that are issued from
-- it are those whose issuer reference is the CA's common name followed by "-ca".
pub client_mount-mount_of :
    (cert : InternalCertificate) (ca : InternalClientCa)
    → (client_ca_path ca ≡ mount_of ca <> "/")
      × ((client_mount cert ≡ mount_of ca)
          ↔ (cert.spec.certificate.issuer.reference ≡ ca.spec.certificate.subject.cn <> "-ca"))
client_mount-mount_of cert ca = (
  client_ca_path-mount_of ca,
  (
    λ h. append_cancel_left "sip-client-ca/" _ _ (h ∙ mount_of-eq ca),
    λ h. ap (λ r. "sip-client-ca/" <> r) h ∙ sym (mount_of-eq ca),
  ),
)

-- Two client CAs share a mount, and with it one key pair, exactly when they have the same common
-- name: the namespace and the name of the resource play no part.
pub mount_of-eq_iff :
    (a b : InternalClientCa)
    → (mount_of a ≡ mount_of b) ↔ (a.spec.certificate.subject.cn ≡ b.spec.certificate.subject.cn)
mount_of-eq_iff a b = (
  λ h.
      append_cancel_right _ _ "-ca"
        (append_cancel_left "sip-client-ca/" _ _ (sym (mount_of-eq a) ∙ h ∙ mount_of-eq b)),
  λ h. mount_of-eq a ∙ ap (λ cn. "sip-client-ca/" <> (cn <> "-ca")) h ∙ sym (mount_of-eq b),
)
