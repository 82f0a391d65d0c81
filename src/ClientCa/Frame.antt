-- ===== src/ClientCa/Frame.antt =====
-- What a call of `Reconcile` may change: the one Secret that the client CA names.
use service_identity_provide.Base.{
  String, List, ◌∷◌, ◌≡◌, inl, inr, refl, sym, subst, ap, Bool-cases, arith,
}
use service_identity_provide.Base.Lists.{has_mount}
use service_identity_provide.Objects.{NamespacedName, Secret, Result, ok, err, key_of}
use service_identity_provide.Resources.ClientCas.{InternalClientCa}
use service_identity_provide.Cluster.{Cluster, Call, World, Outcome}
use service_identity_provide.Cluster.Laws.{KubeLaws, Secrets}
use service_identity_provide.Cluster.Frame.{OnlyAt, same-OnlyAt, put-OnlyAt}
use service_identity_provide.Cluster.Rules.{try_kube_rule}
use service_identity_provide.ClientCa.Reconciler.{
  client_ca_path, secret_literal, reconcile_loaded, after_load, reconcile,
}
use service_identity_provide.ClientCa.Branches.{ListReply, listed_world, loaded_unlisted}
use service_identity_provide.ClientCa.Effects.{MadeFrom}
use service_identity_provide.ClientCa.Outcome.{Provided, FromMount, FromSetup, reconcile-Provided}

-- The name of the Secret of a client CA, in the namespace of the resource.
abbrev pub own_key : InternalClientCa → NamespacedName
own_key cr = record { namespace = cr.meta.namespace; name = cr.spec.secret.name }

module _ (c : Cluster) (L : KubeLaws c) where
  abbrev secrets_in : World c.Kube c.Vault → Secrets
  secrets_in w = L.secrets w.kube

  module _ (cr : InternalClientCa) where
    key_of-made : (cert : String) (s : Secret) → MadeFrom c L cr cert s → key_of s ≡ own_key cr
    unfolding secret_literal
    key_of-made cert s made =
        ap key_of (L.owner_set "InternalClientCA" cr.meta (secret_literal cr cert) s made)

    Provided-OnlyAt :
        (Source : String → Type 0) (before : Secrets) (o : Outcome (Unit {0})) (after : Secrets)
        → Provided c L cr Source before o after
        → OnlyAt (own_key cr) before after
    Provided-OnlyAt Source before o after (inl (stopped, same)) =
        same-OnlyAt (own_key cr) before after same
    Provided-OnlyAt Source before o after (inr (done, (cert, source, (s, made, e)))) =
        subst (OnlyAt (own_key cr) before) (sym e)
          (put-OnlyAt (own_key cr) s before (key_of-made cert s made))

    module _ (w : World c.Kube c.Vault) where
      abbrev Framed : Type 0
      Framed = OnlyAt (own_key cr) (secrets_in w) (secrets_in (reconcile_loaded c cr w).1)

      listed-Framed : (mounts : List String) → ListReply c w ≡ ok mounts → Framed
      listed-Framed mounts listed = elim (Bool-cases (has_mount (client_ca_path cr) mounts)) [
        | inl there ↦
            Provided-OnlyAt (FromMount c L cr (listed_world c w).vault) (secrets_in w) _ _
              ((reconcile-Provided c L cr w mounts listed).0 there)
        | inr missing ↦
            Provided-OnlyAt (FromSetup c L cr (listed_world c w)) (secrets_in w) _ _
              ((reconcile-Provided c L cr w mounts listed).1 missing)
      ]

      reconcile_loaded-Framed : Framed
      reconcile_loaded-Framed = by (ListReply c w) refl
        where
          by : (r : Result (List String)) → ListReply c w ≡ r → Framed
          by (ok mounts) listed = listed-Framed mounts listed
          by (err e) failure = same-OnlyAt (own_key cr) (secrets_in w) _ (
              ap (λ (r : Outcome (Unit {0}) × World c.Kube c.Vault). secrets_in r.1)
                (loaded_unlisted c cr w e failure))

  -- What a call of `Reconcile` may change, by the answer to the read of the resource.
  abbrev pub OnlyOwn : Result InternalClientCa → Secrets → Secrets → Type 0
  OnlyOwn (ok cr) before after = OnlyAt (own_key cr) before after
  OnlyOwn (err e) before after = after ≡ before

  after_load-OnlyOwn :
      (r : Result InternalClientCa) (w : World c.Kube c.Vault)
      → OnlyOwn r (secrets_in w) (secrets_in (after_load c r w).1)
  unfolding after_load
  after_load-OnlyOwn (ok cr) w = reconcile_loaded-Framed cr w
  after_load-OnlyOwn (err e) w = ground arith

  -- However one call of the client CA's Reconcile ends, in the middle of a setup or not, it changes
  -- no Secret but the one that the resource names in its own namespace, and none at all if the
  -- resource could not be read.
  pub reconcile_ca-OnlyOwn :
      (req : NamespacedName) (w : World c.Kube c.Vault)
      → OnlyOwn
          (c.kube_get_client_ca req w.kube).0
          (L.secrets w.kube)
          (L.secrets (reconcile c req w).1.kube)
  unfolding reconcile
  reconcile_ca-OnlyOwn req w =
      try_kube_rule
        (λ _ w'. OnlyOwn (c.kube_get_client_ca req w.kube).0 (secrets_in w) (secrets_in w'))
        (Call.get_client_ca req) (c.kube_get_client_ca req) (after_load c) w
        (subst
          (λ before.
            OnlyOwn (c.kube_get_client_ca req w.kube).0 before
              (secrets_in (after_load c (c.kube_get_client_ca req w.kube).0 w').1))
          (L.get_client_ca_keeps req w.kube)
          (after_load-OnlyOwn (c.kube_get_client_ca req w.kube).0 w'))
    where
      w' : World c.Kube c.Vault
      w' = record w {
        kube = (c.kube_get_client_ca req w.kube).1;
        trace = Call.get_client_ca req ∷ w.trace;
      }
