-- ===== src/Pki/Goroutine.antt =====
-- What the goroutine of the PKI job leaves in Kubernetes, on every schedule.
use service_identity_provide.Base.{
  String, Bool, true, false, Option, none, some, List, [], ◌∷◌, ◌≡◌, ◌⊎◌, inl, inr, refl, ◌∙◌, ap,
  subst, sym, if◌then◌else◌,
}
use service_identity_provide.Base.Fields.{Fields, assign, field?, merge, field?-assign}
use service_identity_provide.Objects.{NamespacedName, Secret, Error, Result, ok, err, key_of}
use service_identity_provide.Cluster.{Status, running, ended, crashed, Cluster, World}
use service_identity_provide.Cluster.Laws.{KubeLaws, Secrets, key_eq, put, stored, written}
use service_identity_provide.Cluster.Api.{get_secret}
use service_identity_provide.Pki.Process.{
  TaskAt, at_create, checking_create, at_not_found, at_already_exists, at_invalid, at_default,
  at_get, at_update, checking_update, finished, Process, root_secret, root_secret_key, with_cert,
  set_cert, task_step, task_updating, task_test, advance, run, spawned,
}
use service_identity_provide.Pki.MainThread.{main_step-keeps, main_step-task}

pub put_here :
    (s : Secret) (m : Secrets) (k : NamespacedName)
    → key_eq (key_of s) k ≡ true
    → put s m k ≡ some (stored s)
put_here s m k h = rw h

put_else :
    (s : Secret) (m : Secrets) (k : NamespacedName) → key_eq (key_of s) k ≡ false → put s m k ≡ m k
put_else s m k h = rw h

some_injective : (x y : Secret) → some x ≡ some y → x ≡ y
some_injective x y h = cc

module _ (namespace cert : String) where
  -- A Secret of the goroutine: under its name, with the certificate once stored.
  abbrev pub Holds : Secret → Type 0
  Holds s =
      (key_of s ≡ root_secret_key namespace) × (field? (stored s).data_fields "ca.pem" ≡ some cert)

  abbrev pub Held : Option Secret → Type 0
  Held none = ⊥
  Held (some s) = field? s.data_fields "ca.pem" ≡ some cert

  -- Every Secret is as before, or it is the root's and holds the certificate.
  abbrev pub Differs : Secrets → Secrets → Type 0
  Differs before after =
      (k : NamespacedName)
      → (after k ≡ before k) ⊎ ((key_eq (root_secret_key namespace) k ≡ true) × Held (after k))

  put-Differs :
      (before after : Secrets) (s : Secret)
      → Holds s
      → Differs before after
      → Differs before (put s after)
  put-Differs before after s (named, holds) d k = split (key_eq (root_secret_key namespace) k) refl
    where
      split :
          (b : Bool)
          → key_eq (root_secret_key namespace) k ≡ b
          → (put s after k ≡ before k)
            ⊎ ((key_eq (root_secret_key namespace) k ≡ true) × Held (put s after k))
      split true e =
          inr (e, subst Held (sym (put_here s after k (ap (λ j. key_eq j k) named ∙ e))) holds)
      split false e =
          subst (λ o. (o ≡ before k) ⊎ ((key_eq (root_secret_key namespace) k ≡ true) × Held o))
            (sym (put_else s after k (ap (λ j. key_eq j k) named ∙ e))) (d k)

  pub root-Holds : Holds (root_secret namespace cert)
  unfolding merge assign field?
  root-Holds = (refl, refl)

  set_cert-Holds :
      (d : Fields) (x s : Secret)
      → key_of x ≡ root_secret_key namespace
      → x.string_data ≡ []
      → set_cert d cert x ≡ some s
      → Holds s
  unfolding merge
  set_cert-Holds [] x s named plain h = cc
  set_cert-Holds (entry ∷ rest) x s named plain h = subst Holds (some_injective made s h) made_holds
    where
      d' : Fields
      d' = assign (entry ∷ rest) "ca.pem" cert

      made : Secret
      made = record x { data_fields = d' }

      made_holds : Holds made
      made_holds = (
        named,
        ap (λ t. field? (merge d' t) "ca.pem") plain ∙ field?-assign (entry ∷ rest) "ca.pem" cert,
      )

  pub found-Holds :
      (r : Result Secret) (s : Secret)
      → ((x : Secret) → r ≡ ok x → (key_of x ≡ root_secret_key namespace) × (x.string_data ≡ []))
      → with_cert cert r ≡ some s
      → Holds s
  unfolding with_cert
  found-Holds (err e) s named h = cc
  found-Holds (ok x) s named h =
      let (key, plain) = named x refl in set_cert-Holds x.data_fields x s key plain h

  -- What the goroutine is about to write is a Secret of its own.
  abbrev pub Ready : TaskAt → Type 0
  Ready (at_update s) = Holds s
  Ready _ = Unit

module _ (c : Cluster) (L : KubeLaws c) (token namespace : String) (mounts : List String)
    (cert : String) where
  abbrev pub State : Type 0
  State = Process c.Kube c.Vault

  -- The Secrets of a process differ from the earlier ones as allowed, in every step.
  abbrev Keeps : Secrets → State → Type 0
  Keeps before p =
      Differs namespace cert before (L.secrets p.world.kube) × Ready namespace cert p.task

  written-Differs :
      (before after : Secrets) (s : Secret) (r : Result (Unit {0}))
      → Holds namespace cert s
      → Differs namespace cert before after
      → Differs namespace cert before (written s r after)
  written-Differs before after s (ok _) h d = put-Differs namespace cert before after s h d
  written-Differs before after s (err _) h d = d

  test-Keeps :
      (before : Secrets) (e : Option Error) (p : State)
      → Keeps before p
      → Keeps before (task_test c token namespace mounts cert e p)
  test-Keeps before none p (d, r) = (d, tt)
  test-Keeps before (some e) p (d, r) = (d, tt)

  if-Keeps :
      (before : Secrets) (b : Bool) (p q : State)
      → Keeps before p
      → Keeps before q
      → Keeps before (if b then p else q)
  if-Keeps before true p q first second = first
  if-Keeps before false p q first second = second

  updating-Keeps :
      (before : Secrets) (o : Option Secret) (p : State)
      → ((s : Secret) → o ≡ some s → Holds namespace cert s)
      → Differs namespace cert before (L.secrets p.world.kube)
      → Keeps before (task_updating c token namespace mounts cert o (record p { task = at_get }))
  updating-Keeps before none p holds d = (d, tt)
  updating-Keeps before (some s) p holds d = (d, holds s refl)

  checked-Keeps :
      (before : Secrets) (e : Option Error) (p : State)
      → Differs namespace cert before (L.secrets p.world.kube)
      → Keeps before (
          task_step c token namespace mounts cert checking_update
            (record p { task = checking_update; shared_err = e }))
  unfolding task_step
  checked-Keeps before none p d = (d, tt)
  checked-Keeps before (some e) p d = (d, tt)

  task_step-Keeps :
      (before : Secrets) (at : TaskAt) (p : State)
      → Keeps before (record p { task = at })
      → Keeps before (task_step c token namespace mounts cert at (record p { task = at }))
  unfolding task_step
  task_step-Keeps before at_create p (d, r) = (
    subst (Differs namespace cert before)
        (sym (L.create_writes (root_secret namespace cert) p.world.kube))
        (written-Differs before (L.secrets p.world.kube) (root_secret namespace cert) _
          (root-Holds namespace cert) d),
    tt,
  )
  task_step-Keeps before checking_create p k = test-Keeps before p.shared_err _ k
  task_step-Keeps before at_not_found p (d, r) = if-Keeps before _ _ _ (d, tt) (d, tt)
  task_step-Keeps before at_already_exists p (d, r) = if-Keeps before _ _ _ (d, tt) (d, tt)
  task_step-Keeps before at_invalid p (d, r) = if-Keeps before _ _ _ (d, tt) (d, tt)
  task_step-Keeps before at_default p (d, r) = (d, tt)
  task_step-Keeps before at_get p (d, r) =
      updating-Keeps before
        (with_cert cert (c.kube_get_secret (root_secret_key namespace) p.world.kube).0)
        (record p { world = (get_secret c (root_secret_key namespace) p.world).1 })
        (λ s.
          found-Holds namespace cert (c.kube_get_secret (root_secret_key namespace) p.world.kube).0
            s (L.get_secret_named (root_secret_key namespace) p.world.kube))
        (subst (Differs namespace cert before)
          (sym (L.get_secret_keeps (root_secret_key namespace) p.world.kube)) d)
  task_step-Keeps before (at_update s) p (d, r) = (
    subst (Differs namespace cert before) (sym (L.update_writes s p.world.kube))
        (written-Differs before (L.secrets p.world.kube) s _ r d),
    tt,
  )
  task_step-Keeps before checking_update p (d, r) = checked-Keeps before p.shared_err p d
  task_step-Keeps before finished p k = k

  advance-Keeps :
      (before : Secrets) (status : Status) (thread : Bool) (p : State)
      → Keeps before p
      → Keeps before (advance c token namespace mounts cert status thread p)
  unfolding advance
  advance-Keeps before running true p (d, r) = (
    subst (λ kube. Differs namespace cert before (L.secrets kube))
        (sym (main_step-keeps c token namespace mounts cert p.main p)) d,
    subst (Ready namespace cert) (sym (main_step-task c token namespace mounts cert p.main p)) r,
  )
  advance-Keeps before running false p k = task_step-Keeps before p.task p k
  advance-Keeps before (ended n) thread p k = k
  advance-Keeps before crashed thread p k = k

  run-Keeps :
      (before : Secrets) (schedule : List Bool) (p : State)
      → Keeps before p
      → Keeps before (run c token namespace mounts cert schedule p)
  unfolding run
  run-Keeps before [] p k = k
  run-Keeps before (thread ∷ schedule) p k =
      run-Keeps before schedule _ (advance-Keeps before p.status thread p k)

  -- However the steps of the two threads follow each other, and wherever the process ends, every
  -- Secret is as it was when the goroutine started, or it is the Secret sip-root-ca in the
  -- namespace of the job and holds the certificate of the root under ca.pem.
  pub run-Differs :
      (schedule : List Bool) (w : World c.Kube c.Vault)
      → Differs namespace cert (L.secrets w.kube) (
          L.secrets
            (run c token namespace mounts cert schedule
              (spawned c token namespace mounts cert w)).world.kube)
  run-Differs schedule w = (run-Keeps (L.secrets w.kube) schedule _ (λ k. inl refl, tt)).0
