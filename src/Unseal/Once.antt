-- ===== src/Unseal/Once.antt =====
-- The unsealing job initialises a Vault at most once, and no Vault that is initialised already.
use service_identity_provide.Base.{
  ℕ, String, Bool, true, false, List, [], ◌∷◌, ◌+◌, ◌≤◌, ◌≡◌, ◌⊎◌, inl, inr, refl, ◌∙◌, arith,
  subst, sym, if◌then◌else◌,
}
use service_identity_provide.Base.Lists.{count_if}
use service_identity_provide.Objects.{Result, ok, err}
use service_identity_provide.Cluster.{
  Cluster, World, Call, Health, Status, running, ended, crashed, Outcome, returned, failed,
  panicked, exited,
}
use service_identity_provide.Persist.{persist_step, creating}
use service_identity_provide.Unseal.Process.{
  Node, WorkerAt, worker, MainAt, storing_key, waiting, Process, Thread, main_thread, worker_thread,
  main_step, worker_step, advance, run, spawned, node_0, name_of,
}
use service_identity_provide.Unseal.Begin.{
  Start, nothing_to_do, unseal_with, store, blocked, begin_init, begin_unseal, by_health, begin,
  after_begin, program,
}
use service_identity_provide.Startup.{pod_namespace}
use service_identity_provide.Unseal.Start.{vault_fqdns, init, after_init, process, init-cases}

abbrev pub is_initialize : Call → Bool
is_initialize (Call.initialize shares threshold) = true
is_initialize _ = false

abbrev pub initializations : List Call → ℕ
initializations trace = count_if is_initialize trace

module _ (c : Cluster) (namespace key token : String) (names : List String) where
  main_step-none :
      (at : MainAt) (p : Process c.Kube c.Vault)
      → initializations (main_step c namespace key token names at p).world.trace
        ≡ initializations p.world.trace
  unfolding main_step persist_step
  main_step-none at p = ground arith

  worker_step-none :
      (n : Node) (at : WorkerAt) (p : Process c.Kube c.Vault)
      → initializations (worker_step c namespace key token names n at p).world.trace
        ≡ initializations p.world.trace
  unfolding worker_step
  worker_step-none n at p = ground arith

  advance-none :
      (status : Status) (thread : Thread) (p : Process c.Kube c.Vault)
      → initializations (advance c namespace key token names status thread p).world.trace
        ≡ initializations p.world.trace
  unfolding advance
  advance-none running main_thread p = main_step-none p.main p
  advance-none running (worker_thread n) p = worker_step-none n (worker n p.workers) p
  advance-none (ended code) thread p = refl
  advance-none crashed thread p = refl

  run-none :
      (schedule : List Thread) (p : Process c.Kube c.Vault)
      → initializations (run c namespace key token names schedule p).world.trace
        ≡ initializations p.world.trace
  unfolding run
  run-none [] p = refl
  run-none (thread ∷ schedule) p =
      run-none schedule (advance c namespace key token names p.status thread p)
      ∙ advance-none p.status thread p

module _ (c : Cluster) where
  after_begin-none :
      (namespace : String) (schedule : List Thread) (names : List String) (o : Outcome Start)
      (w : World c.Kube c.Vault)
      → initializations (after_begin c namespace schedule names o w).1.trace
        ≡ initializations w.trace
  unfolding spawned
  after_begin-none namespace schedule names (returned nothing_to_do) w = refl
  after_begin-none namespace schedule names (returned (unseal_with key)) w =
      run-none c namespace key "" names schedule (spawned c namespace key "" names waiting w)
  after_begin-none namespace schedule names (returned (store key token)) w =
      run-none c namespace key token names schedule
        (spawned c namespace key token names (storing_key creating) w)
  after_begin-none namespace schedule names (returned blocked) w = refl
  after_begin-none namespace schedule names (failed e) w = refl
  after_begin-none namespace schedule names panicked w = refl
  after_begin-none namespace schedule names (exited n) w = refl

  -- How often a Vault may be initialised, by its health.
  abbrev pub allowed : Result Health → ℕ
  allowed (err e) = 0
  allowed (ok health) = if health.initialized then 0 else 1

  begin-AtMost :
      (namespace node : String) (w : World c.Kube c.Vault)
      → initializations (begin c namespace node w).1.trace
        ≤ initializations w.trace + allowed (c.vault_read_health w.vault).0
  unfolding begin by_health begin_init begin_unseal
  begin-AtMost namespace node w = ground arith

  after_init-AtMost :
      (schedule : List Thread) (o : Outcome (List String)) (w : World c.Kube c.Vault)
      → initializations (after_init c schedule o w).1.trace
        ≤ initializations w.trace + allowed (c.vault_read_health w.vault).0
  unfolding program
  after_init-AtMost schedule (returned names) w =
      let (o, w') = begin c (pod_namespace c) (name_of node_0 names) w in
      subst (λ n. n ≤ initializations w.trace + allowed (c.vault_read_health w.vault).0)
        (sym (after_begin-none (pod_namespace c) schedule names o w'))
        (begin-AtMost (pod_namespace c) (name_of node_0 names) w)
  after_init-AtMost schedule (failed e) w = omega arith
  after_init-AtMost schedule panicked w = omega arith
  after_init-AtMost schedule (exited n) w = omega arith

  -- On every schedule, however the job ends, it asks Vault to initialise itself at most once, and
  -- not at all if Vault's health, as the job finds it, cannot be read or is that of a Vault which is
  -- initialised.
  pub process-AtMost :
      (schedule : List Thread) (w : World c.Kube c.Vault)
      → initializations (process c schedule w).1.trace
        ≤ initializations w.trace + allowed (c.vault_read_health w.vault).0
  unfolding process
  process-AtMost schedule w = by (init-cases c w)
    where
      Bound : Outcome (List String) × World c.Kube c.Vault → Type 0
      Bound (o, w') =
          initializations (after_init c schedule o w').1.trace
          ≤ initializations w.trace + allowed (c.vault_read_health w.vault).0

      by :
          (init c w ≡ (returned (vault_fqdns c), w))
            ⊎ ((init c w ≡ (exited 1, w)) ⊎ (init c w ≡ (panicked, w)))
          → initializations (process c schedule w).1.trace
            ≤ initializations w.trace + allowed (c.vault_read_health w.vault).0
      by (inl e) = subst Bound (sym e) (after_init-AtMost schedule (returned (vault_fqdns c)) w)
      by (inr (inl e)) = subst Bound (sym e) (after_init-AtMost schedule (exited 1) w)
      by (inr (inr e)) = subst Bound (sym e) (after_init-AtMost schedule panicked w)
