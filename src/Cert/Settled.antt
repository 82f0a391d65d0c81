-- ===== src/Cert/Settled.antt =====
-- A reconciled resource stays as it is: later runs send no request but the read.
use service_identity_provide.Base.{
  String, ◌≡◌, ◌≢◌, refl, ◌∙◌, ap, subst, true, none, some, ◌∷◌, arith, eq_refl,
}
use service_identity_provide.Objects.{NamespacedName, Secret, not_found, Result, ok, err, key_of}
use service_identity_provide.Resources.Certificates.{InternalCertificate}
use service_identity_provide.Cluster.{Cluster, Call, World, returned}
use service_identity_provide.Cluster.Laws.{KubeLaws, Secrets, put, stored}
use service_identity_provide.Cert.Reconciler.{secret_key, reconcile_loaded}
use service_identity_provide.Cert.Content.{key_of-made}
use service_identity_provide.Cert.Provision.{secrets_in, Effect-returned, answer_to}
use service_identity_provide.Cert.Outcome.{reconcile_loaded-provides}

put_self : (s : Secret) (m : Secrets) → put s m (key_of s) ≡ some (stored s)
put_self s m = rw (eq_refl s.namespace, eq_refl s.name)

put_at :
    (s : Secret) (m : Secrets) (k : NamespacedName) → key_of s ≡ k → put s m k ≡ some (stored s)
put_at s m k e = subst (λ j. put s m j ≡ some (stored s)) e (put_self s m)

module _ (c : Cluster) (L : KubeLaws c) (cr : InternalCertificate) (namespace : String) where
  open cr.spec.certificate.extended_key_usage use {client_auth, server_auth}

  abbrev pub key : NamespacedName
  key = secret_key namespace cr

  -- The run succeeded, read the Secret, and did nothing else.
  abbrev pub OnlyRead : World c.Kube c.Vault → Type 0
  OnlyRead w =
      let (o, w') = reconcile_loaded c namespace cr w in
      (o ≡ returned tt)
      × (secrets_in c L w' ≡ secrets_in c L w)
      × (w'.vault ≡ w.vault)
      × (w'.trace ≡ Call.get_secret key ∷ w.trace)

  -- The read of the Secret is not of a time before it was stored, as one of a cache may be: where
  -- it is reported missing, there is none.
  abbrev pub IsCurrent : World c.Kube c.Vault → Type 0
  IsCurrent w = (c.kube_get_secret key w.kube).0 ≡ err not_found → secrets_in c L w key ≡ none

  settled :
      (w : World c.Kube c.Vault) (x : Secret)
      → client_auth ≢ server_auth
      → secrets_in c L w key ≡ some x
      → IsCurrent w
      → ((client_auth ≡ true) → (y : Secret) × ((c.kube_get_secret key w.kube).0 ≡ ok y))
      → OnlyRead w
  unfolding reconcile_loaded
  settled w x accepted there current reads = split (c.kube_get_secret key w.kube).0 refl
    where
      split : (r : Result Secret) → (c.kube_get_secret key w.kube).0 ≡ r → OnlyRead w
      split (ok y) e = ground (arith, L.get_secret_keeps key w.kube)
      split (err e') e = ground (arith, L.get_secret_keeps key w.kube, current)

  -- After a run that provisioned the resource in its own namespace, the next run in the same
  -- cluster succeeds, sends the one read and changes nothing, if that read is not answered from a
  -- cache that misses the new Secret: no second certificate is issued. For a server certificate
  -- whatever else the read answers, for a client certificate if it finds the Secret.
  pub reconcile_twice :
      (w : World c.Kube c.Vault)
      → client_auth ≢ server_auth
      → cr.meta.namespace ≡ namespace
      → (c.kube_get_secret key w.kube).0 ≡ err not_found
      → (reconcile_loaded c namespace cr w).0 ≡ returned tt
      → let w' = (reconcile_loaded c namespace cr w).1 in
        IsCurrent w'
        → ((client_auth ≡ true) → (y : Secret) × ((c.kube_get_secret key w'.kube).0 ≡ ok y))
        → OnlyRead w'
  reconcile_twice w accepted own missing done current reads =
      let (resp, issued, (s, made, after)) =
        Effect-returned c L cr (answer_to c L cr w.vault) (secrets_in c L w) _ _
          (reconcile_loaded-provides c L cr namespace w accepted missing) done in
      settled (reconcile_loaded c namespace cr w).1 (stored s) accepted
        (ap (λ (f : Secrets). f key) after
          ∙ put_at s (secrets_in c L w) key
              (key_of-made c L cr resp s made ∙ ap (λ n. secret_key n cr) own))
        current reads
