-- ===== src/ClientCa/Effects.antt =====
-- What a reconciliation leaves in a cluster that keeps the documented laws.
use service_identity_provide.Base.{String, ◌≡◌, ◌⊎◌, inl, inr, refl, ◌∙◌, ap, arith, if_elim}
use service_identity_provide.Objects.{Secret, Result, ok, err, is_not_found}
use service_identity_provide.Resources.ClientCas.{InternalClientCa}
use service_identity_provide.Cluster.{
  Cluster, Call, World, Outcome, returned, outcome_of, ok_of_returned, lift,
}
use service_identity_provide.Cluster.Api.{Go, create_secret}
use service_identity_provide.Cluster.Laws.{KubeLaws, Secrets, put, written}
use service_identity_provide.Cluster.Rules.{Stops, bind_rule, try_kube_rule}
use service_identity_provide.ClientCa.Reconciler.{
  secret_literal, build_secret_from, after_create, after_update, write_new, write_again, store_new,
  store_again,
}

module _ (c : Cluster) (L : KubeLaws c) (cr : InternalClientCa) where
  -- A Secret made for the resource from a certificate.
  abbrev pub MadeFrom : String → Secret → Type 0
  MadeFrom cert s =
      c.set_controller_reference "InternalClientCA" cr.meta (secret_literal cr cert) ≡ ok s

  -- The run stopped with an error or a panic and left the Secrets alone, or it succeeded and the
  -- one change is that a Secret made from the certificate is there.
  abbrev pub Effect : String → Secrets → Outcome (Unit {0}) → Secrets → Type 0
  Effect cert before o after =
      Stops o × (after ≡ before)
      ⊎ (o ≡ returned tt) × ((s : Secret) × MadeFrom cert s × (after ≡ put s before))

  module _ (cert : String) (s : Secret) (made : MadeFrom cert s) (before : Secrets) where
    abbrev Done : Outcome (Unit {0}) → World c.Kube c.Vault → Type 0
    Done o w = Effect cert before o (L.secrets w.kube)

    after_create-Done :
        (r : Result (Unit {0})) (w : World c.Kube c.Vault)
        → L.secrets w.kube ≡ written s r before
        → Done (after_create c r w).0 (after_create c r w).1
    unfolding after_create
    after_create-Done (ok _) w same = inr (refl, (s, made, same))
    after_create-Done (err e) w same = ground arith

    create-Done :
        (w : World c.Kube c.Vault)
        → L.secrets w.kube ≡ before
        → Done (create_secret c s w).0 (create_secret c s w).1
    create-Done w same =
        split (c.kube_create_secret s w.kube).0 _
          (L.create_writes s w.kube ∙ ap (written s (c.kube_create_secret s w.kube).0) same)
      where
        split :
            (r : Result (Unit {0})) (after : Secrets)
            → after ≡ written s r before
            → Effect cert before (outcome_of r) after
        split (ok _) after e = inr (refl, (s, made, e))
        split (err x) after e = inl (tt, e)

    after_update-Done :
        (r : Result (Unit {0})) (w : World c.Kube c.Vault)
        → L.secrets w.kube ≡ written s r before
        → Done (after_update c s r w).0 (after_update c s r w).1
    unfolding after_update
    after_update-Done (ok _) w same = inr (refl, (s, made, same))
    after_update-Done (err e) w same =
        if_elim (λ (m : Go c (Unit {0})). Done (m w).0 (m w).1) (is_not_found e)
          (λ _. create-Done w same) (λ _. inl (tt, same))

    write_new-Done :
        (w : World c.Kube c.Vault)
        → L.secrets w.kube ≡ before
        → Done (write_new c s w).0 (write_new c s w).1
    unfolding write_new
    write_new-Done w same =
        try_kube_rule Done (Call.create_secret s) (c.kube_create_secret s) (after_create c) w (
          after_create-Done _ _
            (L.create_writes s w.kube ∙ ap (written s (c.kube_create_secret s w.kube).0) same))

    write_again-Done :
        (w : World c.Kube c.Vault)
        → L.secrets w.kube ≡ before
        → Done (write_again c s w).0 (write_again c s w).1
    unfolding write_again
    write_again-Done w same =
        try_kube_rule Done (Call.update_secret s) (c.kube_update_secret s) (after_update c s) w (
          after_update-Done _ _
            (L.update_writes s w.kube ∙ ap (written s (c.kube_update_secret s w.kube).0) same))

  made_of_built :
      (cert : String) (s : Secret) → build_secret_from c cr cert ≡ returned s → MadeFrom cert s
  unfolding build_secret_from
  made_of_built cert s h = ok_of_returned _ h

  pub store_new-Done :
      (cert : String) (w : World c.Kube c.Vault) (before : Secrets)
      → L.secrets w.kube ≡ before
      → Effect cert before (store_new c cr cert w).0 (L.secrets (store_new c cr cert w).1.kube)
  unfolding store_new
  store_new-Done cert w before same =
      bind_rule (λ o w'. Effect cert before o (L.secrets w'.kube))
        (lift (build_secret_from c cr cert)) (write_new c) w
        (λ s built. write_new-Done cert s (made_of_built cert s built) before w same)
        (λ _ stopped. inl (stopped, same))

  pub store_again-Done :
      (cert : String) (w : World c.Kube c.Vault) (before : Secrets)
      → L.secrets w.kube ≡ before
      → Effect cert before (store_again c cr cert w).0 (L.secrets (store_again c cr cert w).1.kube)
  unfolding store_again
  store_again-Done cert w before same =
      bind_rule (λ o w'. Effect cert before o (L.secrets w'.kube))
        (lift (build_secret_from c cr cert)) (write_again c) w
        (λ s built. write_again-Done cert s (made_of_built cert s built) before w same)
        (λ _ stopped. inl (stopped, same))
