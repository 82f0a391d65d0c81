-- ===== src/Pki/Program.antt =====
-- The PKI job as a whole: what it leaves in Kubernetes, and the certificates that it passes on.
use service_identity_provide.Base.{
  String, Bool, true, Option, none, some, List, ◌∷◌, ◌≡◌, refl, ◌∙◌, ap, arith, subst,
  if◌then◌else◌,
}
use service_identity_provide.Base.Lists.{has_mount}
use service_identity_provide.Objects.{Result, ok, err}
use service_identity_provide.Cluster.{
  Status, ended, fatal_outcome, Cluster, Call, World, Outcome, returned, failed, panicked, exited,
  outcome_of, ◌>>=◌,
}
use service_identity_provide.Cluster.Api.{
  Go, list_mounts, generate_intermediate, sign_intermediate, set_signed,
}
use service_identity_provide.Cluster.Laws.{KubeLaws, Secrets}
use service_identity_provide.Pki.Setup.{
  root_ca_path, root_ca_ttl, interm_ca_path, enable_request, root_request, begin_root, tune_root,
  csr_request, sign_request, install_interm, sign_by_root, install_signed,
}
use service_identity_provide.Pki.Process.{
  before_task, root_if_missing, after_start, program, finish_main,
}
use service_identity_provide.Pki.MainThread.{finish_main-keeps}
use service_identity_provide.Pki.Goroutine.{Differs, run-Differs}

module _ (c : Cluster) (token namespace : String) where
  before_task-keeps : (w : World c.Kube c.Vault) → (before_task c token namespace w).1.kube ≡ w.kube
  unfolding before_task
  before_task-keeps w = ground arith

  -- The certificate of a root that the job makes, by Vault's answers to the list of mounts, the TTL
  -- of the root's mount and the request for a root: none where sip-root-ca/ is listed.
  abbrev pub new_root : Result (List String) → Result (Unit {0}) → Result String → Option String
  new_root (err e) ttl root = none
  new_root (ok mounts) (err e) root = none
  new_root (ok mounts) (ok _) (err e) = none
  new_root (ok mounts) (ok _) (ok cert) =
      if has_mount "sip-root-ca/" mounts then none else some cert

  -- Vault's states up to the request for a root, whether the engine could be enabled or not.
  abbrev pub listed : c.Vault → c.Vault
  listed v = (c.vault_list_mounts v).1

  abbrev pub enabled : c.Vault → c.Vault
  enabled v = (c.vault_enable_engine "sip-root-ca" enable_request (listed v)).1

  abbrev pub ttl_set : c.Vault → Result (Unit {0}) × c.Vault
  ttl_set v = c.vault_tune_mount "sip-root-ca" root_ca_ttl (enabled v)

  abbrev pub root_of : c.Vault → Option String
  root_of v =
      new_root (c.vault_list_mounts v).0 (ttl_set v).0
        (c.vault_generate_root "internal" root_request "sip-root-ca" (ttl_set v).1).0

  -- The certificate that `main` has before it starts a goroutine.
  abbrev made_root : Outcome (List String × Option String) → Option String
  made_root (returned (mounts, root)) = root
  made_root (failed e) = none
  made_root panicked = none
  made_root (exited n) = none

  made_root-root_of :
      (w : World c.Kube c.Vault) → made_root (before_task c token namespace w).0 ≡ root_of w.vault
  unfolding before_task begin_root tune_root
  made_root-root_of w = ground arith

  -- No Secret has changed, or only as the goroutine for a new root may.
  abbrev pub OnlyRoot : Option String → Secrets → Secrets → Type 0
  OnlyRoot (some cert) before after = Differs namespace cert before after
  OnlyRoot none before after = after ≡ before

  module _ (L : KubeLaws c) where
    after_start-OnlyRoot :
        (schedule : List Bool) (o : Outcome (List String × Option String))
        (w : World c.Kube c.Vault)
        → OnlyRoot
            (made_root o)
            (L.secrets w.kube)
            (L.secrets (after_start c token namespace schedule o w).1.kube)
    after_start-OnlyRoot schedule (returned (mounts, some cert)) w =
        run-Differs c L token namespace mounts cert schedule w
    after_start-OnlyRoot schedule (returned (mounts, none)) w =
        ap L.secrets (finish_main-keeps c token mounts w)
    after_start-OnlyRoot schedule (failed e) w = refl
    after_start-OnlyRoot schedule panicked w = refl
    after_start-OnlyRoot schedule (exited n) w = refl

    -- On every schedule, the job changes no Secret at all, unless sip-root-ca/ was not listed and
    -- Vault made a root on it; then every Secret is as before, or it is the Secret sip-root-ca and
    -- holds the certificate that Vault answered for this root.
    pub program-OnlyRoot :
        (schedule : List Bool) (w : World c.Kube c.Vault)
        → OnlyRoot
            (root_of w.vault)
            (L.secrets w.kube)
            (L.secrets (program c token namespace schedule w).1.kube)
    unfolding program
    program-OnlyRoot schedule w =
        let (o, w') = before_task c token namespace w in
        subst
          (λ root.
            OnlyRoot root (L.secrets w.kube)
              (L.secrets (after_start c token namespace schedule o w').1.kube))
          (made_root-root_of w)
          (subst
            (λ kube.
              OnlyRoot (made_root o) (L.secrets kube)
                (L.secrets (after_start c token namespace schedule o w').1.kube))
            (before_task-keeps w) (after_start-OnlyRoot schedule o w'))

  -- Where both mounts are listed the job sends no request but the list, changes nothing in
  -- Kubernetes and ends with status 0, on every schedule.
  pub program-all_listed :
      (schedule : List Bool) (w : World c.Kube c.Vault) (mounts : List String)
      → (c.vault_list_mounts w.vault).0 ≡ ok mounts
      → has_mount "sip-root-ca/" mounts ≡ true
      → has_mount "sip-interm-ca/" mounts ≡ true
      → program c token namespace schedule w ≡ (ended 0, (list_mounts c w).1)
  unfolding program before_task finish_main
  program-all_listed schedule w mounts listed root interm = ap answered listed ∙ (rw (root, interm))
    where
      first : Result (List String) → Go c (List String)
      first r _ = (fatal_outcome (outcome_of r), (list_mounts c w).1)

      answered : Result (List String) → Status × World c.Kube c.Vault
      answered r =
          let (o, w') =
            (first r >>= λ mounts.
            root_if_missing c token namespace mounts (has_mount "sip-root-ca/" mounts))
              w in
          after_start c token namespace schedule o w'

  -- The requests of an intermediate CA that was installed, newest first: the certificate that is
  -- set on the intermediate mount is the one that the root mount signed for the request that Vault
  -- generated on the intermediate mount.
  abbrev pub Chain : World c.Kube c.Vault → List Call → Type 0
  Chain w
        (Call.set_signed cert at
          ∷ Call.sign_intermediate r by
          ∷ Call.generate_intermediate exported q for
          ∷ older) =
      let (csr, v) = c.vault_generate_intermediate exported q for w.vault in
      (csr ≡ ok r.csr)
      × (((c.vault_sign_intermediate r by v).0 ≡ ok cert)
          × ((at ≡ interm_ca_path)
              × ((for ≡ interm_ca_path) × ((by ≡ root_ca_path) × (older ≡ w.trace)))))
  Chain w _ = ⊥

  abbrev pub Installed : World c.Kube c.Vault → Outcome (Unit {0}) → World c.Kube c.Vault → Type 0
  Installed w (returned _) w' = Chain w w'.trace
  Installed w (exited n) w' = n ≡ 1
  Installed w (failed e) w' = ⊥
  Installed w panicked w' = ⊥

  set-Installed :
      (w w' : World c.Kube c.Vault) (r : Result (Unit {0}))
      → Chain w w'.trace
      → Installed w (fatal_outcome (outcome_of r)) w'
  set-Installed w w' (ok tt) chain = chain
  set-Installed w w' (err e) chain = refl

  -- The last part of the setup of the intermediate CA either ends the process with status 1, or it
  -- has set, on the intermediate mount, the certificate that the root mount signed for the very
  -- request that Vault generated on the intermediate mount.
  pub install_interm-Installed :
      (w : World c.Kube c.Vault) → let (o, w') = install_interm c token w in Installed w o w'
  unfolding install_interm sign_by_root
  install_interm-Installed w =
      generated (c.vault_generate_intermediate "internal" csr_request interm_ca_path w.vault).0 refl
    where
      w1 : World c.Kube c.Vault
      w1 = (generate_intermediate c "internal" csr_request interm_ca_path w).1

      first : Result String → Go c String
      first r _ = (fatal_outcome (outcome_of r), w1)

      signed_by :
          (csr : String)
          → (c.vault_generate_intermediate "internal" csr_request interm_ca_path w.vault).0 ≡ ok csr
          → (r : Result String)
          → (c.vault_sign_intermediate (sign_request csr) root_ca_path w1.vault).0 ≡ r
          → let w2 = (sign_intermediate c (sign_request csr) root_ca_path w1).1 in
            let second : Go c String = (λ _. (fatal_outcome (outcome_of r), w2)) in
            let (o, w') = (second >>= install_signed c token) w1 in Installed w o w'
      signed_by csr made (err e) eq = refl
      signed_by csr made (ok cert) eq =
          let (_, w3) =
            set_signed c cert interm_ca_path
              (sign_intermediate c (sign_request csr) root_ca_path w1).1 in
          set-Installed w w3
            (c.vault_set_signed cert interm_ca_path
              (sign_intermediate c (sign_request csr) root_ca_path w1).1.vault).0
            (made, (eq, (refl, (refl, (refl, refl)))))

      generated :
          (r : Result String)
          → (c.vault_generate_intermediate "internal" csr_request interm_ca_path w.vault).0 ≡ r
          → let (o, w') = (first r >>= sign_by_root c token) w in Installed w o w'
      generated (err e) eq = refl
      generated (ok csr) eq = signed_by csr eq _ refl
