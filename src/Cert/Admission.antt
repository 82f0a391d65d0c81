-- ===== src/Cert/Admission.antt =====
-- What the webhook admits, and what that means for the reconciler.
use service_identity_provide.Base.{
  String, ◌+◌, ◌≡◌, ◌≢◌, ◌↔◌, refl, Bool, true, false, none, arith, eq_refl,
}
use service_identity_provide.Base.Lists.{count_if}
use service_identity_provide.Objects.{NamespacedName}
use service_identity_provide.Resources.Certificates.{InternalCertificate}
use service_identity_provide.Cluster.{Cluster, Call, World, is_secret_read}
use service_identity_provide.Cluster.Laws.{key_eq}
use service_identity_provide.Cert.Webhook.{validate_create, validate_update, validate_delete}
use service_identity_provide.Cert.Reconciler.{secret_key, reconcile_loaded}

-- A read of one Secret.
abbrev pub reads : NamespacedName → Call → Bool
reads k (Call.get_secret j) = key_eq j k
reads k _ = false

key_eq_refl : (k : NamespacedName) → key_eq k k ≡ true
key_eq_refl k = rw (eq_refl k.namespace, eq_refl k.name)

module _ (r : InternalCertificate) where
  open r.spec.certificate.extended_key_usage use {client_auth, server_auth}

  -- A resource is admitted, on creation and on every update, exactly when one of its two usages
  -- is set; a deletion is always admitted.
  pub admitted_iff :
      (old : InternalCertificate)
      → (((validate_create r).1 ≡ none) ↔ (client_auth ≢ server_auth))
        × (((validate_update r old).1 ≡ none) ↔ (client_auth ≢ server_auth))
        × ((validate_delete r).1 ≡ none)
  unfolding validate_create validate_update validate_delete
  admitted_iff old =
      ((λ h e. ground arith, λ h. ground arith), (λ h e. ground arith, λ h. ground arith), refl)

  -- The reconciler reads the Secret that an admitted resource names, in the namespace of the
  -- request, once and no other: it takes exactly one of its two branches.
  pub admitted_reconciles :
      (c : Cluster) (namespace : String) (w : World c.Kube c.Vault)
      → (validate_create r).1 ≡ none
      → let w' = (reconcile_loaded c namespace r w).1 in
        (count_if (reads (secret_key namespace r)) w'.trace
          ≡ count_if (reads (secret_key namespace r)) w.trace + 1)
        × (count_if is_secret_read w'.trace ≡ count_if is_secret_read w.trace + 1)
  unfolding validate_create reconcile_loaded
  admitted_reconciles c namespace w admitted =
      (grind (arith, key_eq_refl (secret_key namespace r)), ground arith)
