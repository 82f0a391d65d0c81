-- ===== src/Pki/Written.antt =====
-- The goroutine of the PKI job where it runs to its end without the main thread.
use service_identity_provide.Base.{
  ℕ, zero, suc, String, Bool, true, false, Option, none, some, List, [], ◌∷◌, ◌≡◌, refl, ◌∙◌, ap,
  subst, sym, eq_refl,
}
use service_identity_provide.Objects.{
  NamespacedName, Secret, Error, not_found, already_exists, invalid, other, Result, ok, err,
}
use service_identity_provide.Cluster.{running, Cluster, Call, World, outcome_of}
use service_identity_provide.Cluster.Api.{get_secret}
use service_identity_provide.Cluster.Laws.{KubeLaws, Secrets, key_eq, put, written}
use service_identity_provide.Pki.Process.{
  at_urls, TaskAt, checking_create, at_get, at_update, checking_update, finished, Process,
  root_secret, root_secret_key, with_cert, task_step, task_updating, error_in, advance, run,
  spawned,
}
use service_identity_provide.Pki.Goroutine.{Holds, Held, put_here, root-Holds, found-Holds}

-- `n` steps of the goroutine.
abbrev pub task_only : ℕ → List Bool
task_only zero = []
task_only (suc n) = false ∷ task_only n

key_eq_refl : (k : NamespacedName) → key_eq k k ≡ true
key_eq_refl k = rw (eq_refl k.namespace, eq_refl k.name)

module _ (c : Cluster) (L : KubeLaws c) (token namespace : String) (mounts : List String)
    (cert : String) where
  -- A process that still runs has a goroutine that ended, and the certificate is stored.
  abbrev Wrote : Process c.Kube c.Vault → Type 0
  Wrote p =
      p.status ≡ running
      → (p.task ≡ finished)
        × Held namespace cert (L.secrets p.world.kube (root_secret_key namespace))

  abbrev steps : ℕ → World c.Kube c.Vault → Option Error → TaskAt → Process c.Kube c.Vault
  steps n w e task =
      run c token namespace mounts cert (task_only n)
        (record { world = w; shared_err = e; main = at_urls; task = task; status = running })

  put_root-Held :
      (m : Secrets) (s : Secret)
      → Holds namespace cert s
      → Held namespace cert (put s m (root_secret_key namespace))
  put_root-Held m s (named, holds) =
      subst (Held namespace cert)
        (sym (
          put_here s m (root_secret_key namespace) (
            ap (λ k. key_eq k (root_secret_key namespace)) named
            ∙ key_eq_refl (root_secret_key namespace))))
        holds

  written-Held :
      (m m' : Secrets) (s : Secret) (r : Result (Unit {0}))
      → Holds namespace cert s
      → m' ≡ written s r m
      → r ≡ ok tt
      → Held namespace cert (m' (root_secret_key namespace))
  written-Held m m' s r h wrote e =
      subst (λ n. Held namespace cert (n (root_secret_key namespace)))
        (sym (wrote ∙ ap (λ x. written s x m) e)) (put_root-Held m s h)

  update-Wrote :
      (w : World c.Kube c.Vault) (e : Option Error) (s : Secret)
      → Holds namespace cert s
      → Wrote (steps 2 w e (at_update s))
  unfolding run advance task_step
  update-Wrote w e s h = by_reply (c.kube_update_secret s w.kube).0 refl
    where
      w' : World c.Kube c.Vault
      w' = record w {
        kube = (c.kube_update_secret s w.kube).1;
        trace = Call.update_secret s ∷ w.trace;
      }

      by_reply :
          (r : Result (Unit {0}))
          → (c.kube_update_secret s w.kube).0 ≡ r
          → Wrote (steps 1 w' (error_in (outcome_of r)) checking_update)
      by_reply (ok tt) eq running_yet = (refl, written-Held _ _ s _ h (L.update_writes s w.kube) eq)
      by_reply (err x) eq running_yet = cc

  get-Wrote : (w : World c.Kube c.Vault) (e : Option Error) → Wrote (steps 3 w e at_get)
  unfolding run advance task_step
  get-Wrote w e =
      by_secret (with_cert cert (c.kube_get_secret (root_secret_key namespace) w.kube).0) (λ s.
        found-Holds namespace cert (c.kube_get_secret (root_secret_key namespace) w.kube).0 s
          (L.get_secret_named (root_secret_key namespace) w.kube))
    where
      w' : World c.Kube c.Vault
      w' = (get_secret c (root_secret_key namespace) w).1

      by_secret :
          (o : Option Secret)
          → ((s : Secret) → o ≡ some s → Holds namespace cert s)
          → Wrote (
              run c token namespace mounts cert (task_only 2) (
                task_updating c token namespace mounts cert o (record {
                  world = w';
                  shared_err = e;
                  main = at_urls;
                  task = at_get;
                  status = running;
                })))
      by_secret none h running_yet = cc
      by_secret (some s) h running_yet = update-Wrote w' e s (h s refl) running_yet

  -- If the goroutine makes seven steps of its own before any other, then either the process has
  -- ended or crashed, or the goroutine has ended and the Secret sip-root-ca holds the certificate.
  pub run-task_alone :
      (w : World c.Kube c.Vault)
      → let p =
          run c token namespace mounts cert
            (task_only 7)
            (spawned c token namespace mounts cert w) in
        p.status ≡ running
        → (p.task ≡ finished)
          × Held namespace cert (L.secrets p.world.kube (root_secret_key namespace))
  unfolding run advance task_step
  run-task_alone w = by_reply (c.kube_create_secret (root_secret namespace cert) w.kube).0 refl
    where
      w' : World c.Kube c.Vault
      w' = record w {
        kube = (c.kube_create_secret (root_secret namespace cert) w.kube).1;
        trace = Call.create_secret (root_secret namespace cert) ∷ w.trace;
      }

      by_reply :
          (r : Result (Unit {0}))
          → (c.kube_create_secret (root_secret namespace cert) w.kube).0 ≡ r
          → Wrote (steps 6 w' (error_in (outcome_of r)) checking_create)
      by_reply (ok tt) eq running_yet = (
        refl,
        written-Held _ _ (root_secret namespace cert) _ (root-Holds namespace cert)
            (L.create_writes (root_secret namespace cert) w.kube) eq,
      )
      by_reply (err not_found) eq running_yet = cc
      by_reply (err already_exists) eq running_yet = get-Wrote w' (some already_exists) running_yet
      by_reply (err invalid) eq running_yet = cc
      by_reply (err (other text)) eq running_yet = cc
