-- ===== src/ClientCa/Outcome.antt =====
-- The results of `Reconcile`, by the mounts that Vault lists.
use service_identity_provide.Base.{String, ◌≡◌, ◌⊎◌, inl, inr, refl, sym, subst, true, false, List}
use service_identity_provide.Base.Lists.{has_mount}
use service_identity_provide.Objects.{Secret, ok}
use service_identity_provide.Resources.ClientCas.{InternalClientCa}
use service_identity_provide.Cluster.{Cluster, Call, World, Outcome, returned}
use service_identity_provide.Cluster.Laws.{KubeLaws, Secrets, put}
use service_identity_provide.Cluster.Rules.{Stops, bind_rule, vault_rule}
use service_identity_provide.Startup.{root_token_key}
use service_identity_provide.ClientCa.Setup.{enable_pki_client_ca}
use service_identity_provide.ClientCa.Keeps.{setup-keeps}
use service_identity_provide.ClientCa.Returned.{Kept, root_answer, tuned, enabled, setup-returned}
use service_identity_provide.ClientCa.Reconciler.{
  mount_of, client_ca_path, store_new, store_again, reconcile_absent, reconcile_present,
  reconcile_loaded,
}
use service_identity_provide.ClientCa.Branches.{
  ListReply, listed_world, loaded_present, loaded_absent,
}
use service_identity_provide.ClientCa.Effects.{MadeFrom, Effect, store_new-Done, store_again-Done}

module _ (c : Cluster) (L : KubeLaws c) (cr : InternalClientCa) where
  -- The run stopped and left the Secrets alone, or it succeeded and the one change is that a
  -- Secret made from a certificate of the given source is there.
  abbrev pub Provided : (String → Type 0) → Secrets → Outcome (Unit {0}) → Secrets → Type 0
  Provided Source before o after =
      Stops o × (after ≡ before)
      ⊎ (o ≡ returned tt)
        × ((cert : String) × Source cert
            × ((s : Secret) × MadeFrom c L cr cert s × (after ≡ put s before)))

  Provided-of-Effect :
      (Source : String → Type 0) (cert : String) (before : Secrets) (o : Outcome (Unit {0}))
      (after : Secrets)
      → Source cert
      → Effect c L cr cert before o after
      → Provided Source before o after
  Provided-of-Effect Source cert before o after source (inl stopped) = inl stopped
  Provided-of-Effect Source cert before o after source (inr (done, made)) =
      inr (done, (cert, source, made))

  -- The certificate is what Vault reads from the mount.
  abbrev pub FromMount : c.Vault → String → Type 0
  FromMount v cert = (c.vault_read_ca_chain (mount_of cr) v).0 ≡ ok cert

  -- The certificate is that of the root that Vault made for the mount, or, if the root token could
  -- not be read, the empty text.
  abbrev pub FromSetup : World c.Kube c.Vault → String → Type 0
  FromSetup w cert =
      let reply = (c.kube_get_secret (root_token_key c) w.kube).0 in
      (root : String) × (root_answer c (mount_of cr) cr
          (tuned c (mount_of cr) (enabled c (mount_of cr) w.vault))
        ≡ ok root)
      × Kept reply root cert

  reconcile_present-Provided :
      (w : World c.Kube c.Vault)
      → let (o, w') = reconcile_present c cr w in
        Provided (FromMount w.vault) (L.secrets w.kube) o (L.secrets w'.kube)
  unfolding reconcile_present
  reconcile_present-Provided w =
      vault_rule (λ o w'. Provided (FromMount w.vault) (L.secrets w.kube) o (L.secrets w'.kube))
        (Call.read_ca_chain (mount_of cr)) (c.vault_read_ca_chain (mount_of cr)) (store_again c cr)
        w
        (
          λ cert read.
              Provided-of-Effect _ cert _ _ _ read
                (store_again-Done c L cr cert _ (L.secrets w.kube) refl),
          λ e _. inl (tt, refl),
        )

  reconcile_absent-Provided :
      (w : World c.Kube c.Vault)
      → let (o, w') = reconcile_absent c cr w in
        Provided (FromSetup w) (L.secrets w.kube) o (L.secrets w'.kube)
  unfolding reconcile_absent
  reconcile_absent-Provided w =
      bind_rule (λ o w'. Provided (FromSetup w) (L.secrets w.kube) o (L.secrets w'.kube))
        (enable_pki_client_ca c cr (mount_of cr)) (store_new c cr) w
        (λ cert done.
          let (root, made, kept, sent) = setup-returned c cr (mount_of cr) _ w cert refl done in
          Provided-of-Effect (FromSetup w) cert _ _ _ (root, made, kept)
            (store_new-Done c L cr cert _ _ (setup-keeps c cr (mount_of cr) L w)))
        (λ _ stopped. inl (stopped, setup-keeps c cr (mount_of cr) L w))

  abbrev Run : Type 0
  Run = Outcome (Unit {0}) × World c.Kube c.Vault

  -- Whatever happens, one of these holds: the run stops with an error or a panic and every Secret
  -- is as before, or it succeeds and the one change is that a Secret made for the resource is
  -- there. If the mount is listed its certificate is the one that Vault reads from the mount. If
  -- not, it is the root's that the setup made, or an empty text where the root token could not be
  -- read.
  pub reconcile-Provided :
      (w : World c.Kube c.Vault) (mounts : List String)
      → ListReply c w ≡ ok mounts
      → let (o, w') = reconcile_loaded c cr w in
        (has_mount (client_ca_path cr) mounts ≡ true
          → Provided (FromMount (listed_world c w).vault) (L.secrets w.kube) o (L.secrets w'.kube))
        × (has_mount (client_ca_path cr) mounts ≡ false
            → Provided (FromSetup (listed_world c w)) (L.secrets w.kube) o (L.secrets w'.kube))
  reconcile-Provided w mounts listed = (
    λ there.
        subst
          (λ (r : Run).
            Provided (FromMount (listed_world c w).vault) (L.secrets w.kube) r.0
              (L.secrets r.1.kube))
          (sym (loaded_present c cr w mounts listed there))
          (reconcile_present-Provided (listed_world c w)),
    λ missing.
        subst
          (λ (r : Run).
            Provided (FromSetup (listed_world c w)) (L.secrets w.kube) r.0 (L.secrets r.1.kube))
          (sym (loaded_absent c cr w mounts listed missing))
          (reconcile_absent-Provided (listed_world c w)),
  )
