-- ===== src/Unseal/Stores.antt =====
-- What the main thread of the unsealing job has stored at each of its steps.
use service_identity_provide.Base.{
  ℕ, zero, suc, String, Bool, true, false, if◌then◌else◌, some, List, ◌≡◌, refl, ◌∙◌, subst, sym,
  eq_refl,
}
use service_identity_provide.Base.Fields.{Fields, assign, field?, field?-assign, merge}
use service_identity_provide.Objects.{NamespacedName}
use service_identity_provide.Cluster.{Cluster, World, Status, running, ended}
use service_identity_provide.Cluster.Laws.{KubeLaws, Secrets, key_eq, stored}
use service_identity_provide.Persist.{Progress, next, done, stopped, broke, persist_step, creating}
use service_identity_provide.Persist.Stored.{
  Held, HeldBy, Only, Ready, Reached, persist_step-Reached,
}
use service_identity_provide.Unseal.Process.{
  MainAt, storing_key, storing_token, waiting, unwinding, Process, main_progress, wait,
  wait_to_panic, any_moves, main_step, run, key_secret, token_secret, set_key, set_token,
}

module _ (c : Cluster) (L : KubeLaws c) (namespace key token : String) (names : List String) where
  abbrev pub State : Type 0
  State = Process c.Kube c.Vault

  abbrev pub HasKey : Fields → Type 0
  HasKey d = field? d "key" ≡ some key

  abbrev pub HasToken : Fields → Type 0
  HasToken d = field? d "token" ≡ some token

  abbrev pub key_name : NamespacedName
  key_name = record { namespace = namespace; name = "vault-unseal-key" }

  abbrev pub token_name : NamespacedName
  token_name = record { namespace = namespace; name = "vault-root-token" }

  -- The two Secrets are there and hold the key and the token.
  abbrev pub BothHeld : Secrets → Type 0
  BothHeld m = Held HasKey key_name m × Held HasToken token_name m

  abbrev pub Kept : MainAt → Secrets → Type 0
  Kept (storing_key stage) m = Ready HasKey key_name stage
  Kept (storing_token stage) m = Held HasKey key_name m × Ready HasToken token_name stage
  Kept waiting m = BothHeld m
  Kept unwinding m = Unit

  -- All other Secrets are as before.
  abbrev pub Others : Secrets → Secrets → Type 0
  Others before after =
      (k : NamespacedName)
      → key_eq key_name k ≡ false
      → key_eq token_name k ≡ false
      → after k ≡ before k

  abbrev pub Stores : Secrets → State → Type 0
  Stores before p =
      (p.status ≡ running → Kept p.main (L.secrets p.world.kube))
      × (Others before (L.secrets p.world.kube)
          × (p.status ≡ ended 0 → BothHeld (L.secrets p.world.kube)))

  key-changed : (d : Fields) → HasKey (set_key key d)
  key-changed d = field?-assign d "key" key

  token-changed : (d : Fields) → HasToken (set_token token d)
  token-changed d = field?-assign d "token" token

  key-literal : HasKey (stored (key_secret namespace key)).data_fields
  unfolding merge assign field?
  key-literal = refl

  token-literal : HasToken (stored (token_secret namespace token)).data_fields
  unfolding merge assign field?
  token-literal = refl

  names-differ : key_eq token_name key_name ≡ false
  names-differ = rw (eq_refl namespace) refl

  -- The write of the token leaves the key alone.
  key-kept :
      (m m' : Secrets)
      → Only HasToken token_name m m'
      → Held HasKey key_name m
      → Held HasKey key_name m'
  key-kept m m' only held = subst (HeldBy HasKey) (sym (only key_name names-differ)) held

  not_over : (s : Status) → s ≡ running → s ≡ ended 0 → ⊥
  not_over s r e = cc

  key_progress-Stores :
      (before : Secrets) (r : Progress) (w : World c.Kube c.Vault) (p : State)
      → p.status ≡ running
      → Stores before p
      → Reached HasKey key_name (L.secrets p.world.kube) r (L.secrets w.kube)
      → Stores before
          (main_progress c namespace key token names storing_key (storing_token creating) r w p)
  key_progress-Stores before (next stage) w p run (k, (o, z)) (only, ready) =
      (λ _. ready, (λ j a b. only j a ∙ o j a b, λ e. absurd (not_over p.status run e)))
  key_progress-Stores before done w p run (k, (o, z)) (only, held) =
      (λ _. (held, tt), (λ j a b. only j a ∙ o j a b, λ e. absurd (not_over p.status run e)))
  key_progress-Stores before stopped w p run (k, (o, z)) only =
      (λ e. cc, (λ j a b. only j a ∙ o j a b, λ e. cc))
  key_progress-Stores before broke w p run (k, (o, z)) only =
      (λ _. tt, (λ j a b. only j a ∙ o j a b, λ e. absurd (not_over p.status run e)))

  token_progress-Stores :
      (before : Secrets) (r : Progress) (w : World c.Kube c.Vault) (p : State)
      → p.status ≡ running
      → Held HasKey key_name (L.secrets p.world.kube)
      → Stores before p
      → Reached HasToken token_name (L.secrets p.world.kube) r (L.secrets w.kube)
      → Stores before (main_progress c namespace key token names storing_token waiting r w p)
  token_progress-Stores before (next stage) w p run held (k, (o, z)) (only, ready) = (
    λ _. (key-kept _ _ only held, ready),
    (λ j a b. only j b ∙ o j a b, λ e. absurd (not_over p.status run e)),
  )
  token_progress-Stores before done w p run held (k, (o, z)) (only, got) = (
    λ _. (key-kept _ _ only held, got),
    (λ j a b. only j b ∙ o j a b, λ e. absurd (not_over p.status run e)),
  )
  token_progress-Stores before stopped w p run held (k, (o, z)) only =
      (λ e. cc, (λ j a b. only j b ∙ o j a b, λ e. cc))
  token_progress-Stores before broke w p run held (k, (o, z)) only =
      (λ _. tt, (λ j a b. only j b ∙ o j a b, λ e. absurd (not_over p.status run e)))

  blocked-Stores :
      (before : Secrets) (b : Bool) (p : State)
      → Stores before p
      → Stores before (if b then p else record p { status = ended 2 })
  blocked-Stores before true p s = s
  blocked-Stores before false p (k, (o, z)) = (λ e. cc, (o, λ e. cc))

  wait-Stores :
      (before : Secrets) (pending : ℕ) (p : State)
      → BothHeld (L.secrets p.world.kube)
      → Stores before p
      → Stores before (wait c namespace key token names pending p)
  wait-Stores before zero p both (k, (o, z)) = (λ e. cc, (o, λ _. both))
  wait-Stores before (suc n) p both s = blocked-Stores before (any_moves p.workers) p s

  panic-Stores :
      (before : Secrets) (pending : ℕ) (p : State)
      → Stores before p
      → Stores before (wait_to_panic c namespace key token names pending p)
  panic-Stores before zero p (k, (o, z)) = (λ e. cc, (o, λ e. cc))
  panic-Stores before (suc n) p s = blocked-Stores before (any_moves p.workers) p s

  pub main_step-Stores :
      (before : Secrets) (at : MainAt) (p : State)
      → p.status ≡ running
      → Kept at (L.secrets p.world.kube)
      → Stores before p
      → Stores before (main_step c namespace key token names at p)
  unfolding main_step
  main_step-Stores before (storing_key stage) p run ready s =
      let (r, w) = persist_step c (key_secret namespace key) (set_key key) stage p.world in
      key_progress-Stores before r w p run s (
        persist_step-Reached c L HasKey (key_secret namespace key) (set_key key) key-changed
          key-literal (L.secrets p.world.kube) stage p.world ready (λ _ _. refl))
  main_step-Stores before (storing_token stage) p run (held, ready) s =
      let (r, w) = persist_step c (token_secret namespace token) (set_token token) stage p.world in
      token_progress-Stores before r w p run held s (
        persist_step-Reached c L HasToken (token_secret namespace token) (set_token token)
          token-changed token-literal (L.secrets p.world.kube) stage p.world ready (λ _ _. refl))
  main_step-Stores before waiting p run both s = wait-Stores before p.pending p both s
  main_step-Stores before unwinding p run k s = panic-Stores before p.pending p s
