-- ===== src/Cert/Frame.antt =====
-- What a call of `Reconcile` may change: the one Secret that the resource names.
use service_identity_provide.Base.{
  String, ◌∷◌, ◌≡◌, ◌⊎◌, inl, inr, refl, sym, subst, true, false, Bool-cases, arith,
}
use service_identity_provide.Objects.{
  NamespacedName, Secret, Error, not_found, already_exists, invalid, other, Result, ok, err,
}
use service_identity_provide.Resources.Certificates.{InternalCertificate}
use service_identity_provide.Cluster.{Cluster, Call, Issued, World, Outcome}
use service_identity_provide.Cluster.Laws.{KubeLaws, Secrets}
use service_identity_provide.Cluster.Frame.{OnlyAt, same-OnlyAt, put-OnlyAt}
use service_identity_provide.Cluster.Rules.{try_kube_rule}
use service_identity_provide.Cert.Reconciler.{secret_key, reconcile_loaded, after_load, reconcile}
use service_identity_provide.Cert.Content.{key_of-made}
use service_identity_provide.Cert.Provision.{secrets_in, Effect, answer_to}
use service_identity_provide.Cert.Outcome.{
  RunEffect, reconcile_client-provides, loaded_client, reconcile_loaded-provides,
  reconcile-server_read_failure,
}

module _ (c : Cluster) (L : KubeLaws c) where
  module _ (cr : InternalCertificate) where
    open cr.spec.certificate.extended_key_usage use {client_auth, server_auth}

    abbrev own_key : NamespacedName
    own_key = secret_key cr.meta.namespace cr

    Effect-OnlyAt :
        (answer : Result Issued) (before : Secrets) (o : Outcome (Unit {0})) (after : Secrets)
        → Effect c L cr answer before o after
        → OnlyAt own_key before after
    Effect-OnlyAt answer before o after (inl (stopped, same)) =
        same-OnlyAt own_key before after same
    Effect-OnlyAt answer before o after (inr (done, (resp, issued, (s, made, e)))) =
        subst (OnlyAt own_key before) (sym e)
          (put-OnlyAt own_key s before (key_of-made c L cr resp s made))

    module _ (namespace : String) (w : World c.Kube c.Vault) where
      abbrev Framed : Type 0
      Framed =
          OnlyAt own_key (secrets_in c L w) (secrets_in c L (reconcile_loaded c namespace cr w).1)

      unchanged-Framed :
          secrets_in c L (reconcile_loaded c namespace cr w).1 ≡ secrets_in c L w → Framed
      unchanged-Framed = same-OnlyAt own_key (secrets_in c L w) _

      found-same :
          (s : Secret)
          → (c.kube_get_secret (secret_key namespace cr) w.kube).0 ≡ ok s
          → secrets_in c L (reconcile_loaded c namespace cr w).1 ≡ secrets_in c L w
      unfolding reconcile_loaded
      found-same s e = ground (arith, L.get_secret_keeps (secret_key namespace cr) w.kube)

      neither-same :
          client_auth ≡ false
          → server_auth ≡ false
          → secrets_in c L (reconcile_loaded c namespace cr w).1 ≡ secrets_in c L w
      unfolding reconcile_loaded
      neither-same no_client no_server = ground arith

      client-Framed :
          (e : Error)
          → client_auth ≡ true
          → (c.kube_get_secret (secret_key namespace cr) w.kube).0 ≡ err e
          → Framed
      client-Framed e client failure =
          Effect-OnlyAt (answer_to c L cr w.vault) (secrets_in c L w) _ _ (
            subst (λ m. RunEffect c L cr namespace w (m w).0 (m w).1)
              (sym (loaded_client c L cr namespace client))
              (reconcile_client-provides c L cr namespace w e client failure))

      server-Framed :
          (e : Error)
          → client_auth ≡ false
          → server_auth ≡ true
          → (c.kube_get_secret (secret_key namespace cr) w.kube).0 ≡ err e
          → Framed
      server-Framed not_found no_client server failure =
          Effect-OnlyAt (answer_to c L cr w.vault) (secrets_in c L w) _ _
            (reconcile_loaded-provides c L cr namespace w (λ same. cc) failure)
      server-Framed already_exists no_client server failure =
          unchanged-Framed
            (reconcile-server_read_failure c L cr namespace w already_exists no_client server
              failure (λ h. cc)).1
      server-Framed invalid no_client server failure =
          unchanged-Framed
            (reconcile-server_read_failure c L cr namespace w invalid no_client server failure
              (λ h. cc)).1
      server-Framed (other text) no_client server failure =
          unchanged-Framed
            (reconcile-server_read_failure c L cr namespace w (other text) no_client server failure
              (λ h. cc)).1

      reconcile_loaded-Framed : Framed
      reconcile_loaded-Framed =
          by (c.kube_get_secret (secret_key namespace cr) w.kube).0 refl (Bool-cases client_auth)
            (Bool-cases server_auth)
        where
          by :
              (r : Result Secret)
              → (c.kube_get_secret (secret_key namespace cr) w.kube).0 ≡ r
              → (client_auth ≡ true) ⊎ (client_auth ≡ false)
              → (server_auth ≡ true) ⊎ (server_auth ≡ false)
              → Framed
          by (ok s) e usage other_usage = unchanged-Framed (found-same s e)
          by (err x) e (inl client) other_usage = client-Framed x client e
          by (err x) e (inr no_client) (inl server) = server-Framed x no_client server e
          by (err x) e (inr no_client) (inr no_server) =
              unchanged-Framed (neither-same no_client no_server)

  -- What a call of `Reconcile` may change, by the answer to the read of the resource.
  abbrev pub OnlyOwn : Result InternalCertificate → Secrets → Secrets → Type 0
  OnlyOwn (ok cr) before after = OnlyAt (secret_key cr.meta.namespace cr) before after
  OnlyOwn (err e) before after = after ≡ before

  after_load-OnlyOwn :
      (namespace : String) (r : Result InternalCertificate) (w : World c.Kube c.Vault)
      → OnlyOwn r (secrets_in c L w) (secrets_in c L (after_load c namespace r w).1)
  unfolding after_load
  after_load-OnlyOwn namespace (ok cr) w = reconcile_loaded-Framed cr namespace w
  after_load-OnlyOwn namespace (err e) w = ground arith

  -- However one call of Reconcile ends, it changes no Secret but the one that the resource names in
  -- its own namespace, and none at all if the resource could not be read.
  pub reconcile-OnlyOwn :
      (req : NamespacedName) (w : World c.Kube c.Vault)
      → OnlyOwn
          (c.kube_get_certificate req w.kube).0
          (secrets_in c L w)
          (secrets_in c L (reconcile c req w).1)
  unfolding reconcile
  reconcile-OnlyOwn req w =
      try_kube_rule
        (λ _ w'.
          OnlyOwn (c.kube_get_certificate req w.kube).0 (secrets_in c L w) (secrets_in c L w'))
        (Call.get_certificate req) (c.kube_get_certificate req) (after_load c req.namespace) w
        (subst
          (λ before. OnlyOwn (c.kube_get_certificate req w.kube).0 before (
            secrets_in c L (after_load c req.namespace (c.kube_get_certificate req w.kube).0 w').1))
          (L.get_certificate_keeps req w.kube)
          (after_load-OnlyOwn req.namespace (c.kube_get_certificate req w.kube).0 w'))
    where
      w' : World c.Kube c.Vault
      w' = record w {
        kube = (c.kube_get_certificate req w.kube).1;
        trace = Call.get_certificate req ∷ w.trace;
      }
