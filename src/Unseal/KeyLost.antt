-- ===== src/Unseal/KeyLost.antt =====
-- The unseal key of a Vault that was just initialised, where the workers are scheduled before the
-- main thread stores it.
use service_identity_provide.Base.{
  String, Bool, true, false, List, [], ◌∷◌, ◌≡◌, ◌⊎◌, inl, inr, refl, ap, ◌∙◌, sym,
}
use service_identity_provide.Objects.{Error, Result, ok, err}
use service_identity_provide.Cluster.{Cluster, World, Status, running, ended, crashed}
use service_identity_provide.Cluster.Api.{unseal}
use service_identity_provide.Unseal.Process.{
  Node, WorkerAt, absent, starting, asking, unsealed, no_client, worker, name_of, address, MainAt,
  Process, Thread, worker_thread, after_client, after_unseal, worker_step, advance, run, spawned,
}

-- Steps of workers alone.
abbrev pub workers_only : List Node → List Thread
workers_only [] = []
workers_only (n ∷ nodes) = worker_thread n ∷ workers_only nodes

module _ (c : Cluster) (namespace key token : String) (names : List String) where
  abbrev pub State : Type 0
  State = Process c.Kube c.Vault

  -- A worker is about to ask with the key, and Vault will answer with an error.
  abbrev pub RefusedNow : Node → State → Type 0
  RefusedNow n p =
      (worker n p.workers ≡ asking)
      × ((e : Error) × ((c.vault_unseal (name_of n names) key p.world.vault).0 ≡ err e))

  -- That is one of the steps.
  abbrev pub Refused : List Node → State → Type 0
  Refused [] p = ⊥
  Refused (n ∷ nodes) p =
      RefusedNow n p
      ⊎ Refused nodes (advance c namespace key token names p.status (worker_thread n) p)

  -- Kubernetes is as before; the process runs, or it was ended with status 1 by such an error.
  abbrev pub Lost : c.Kube → List Node → State → State → Type 0
  Lost kube nodes p p' =
      (p'.world.kube ≡ kube)
      × (((p'.status ≡ running) × (Refused nodes p → ⊥))
          ⊎ ((p'.status ≡ ended 1) × Refused nodes p))

  -- The same for one step.
  abbrev Step : c.Kube → Node → State → State → Type 0
  Step kube n p p' =
      (p'.world.kube ≡ kube)
      × (((p'.status ≡ running) × (RefusedNow n p → ⊥)) ⊎ ((p'.status ≡ ended 1) × RefusedNow n p))

  elsewhere :
      (n : Node) (at : WorkerAt) (p : State)
      → worker n p.workers ≡ at
      → (at ≡ asking → ⊥)
      → RefusedNow n p
      → ⊥
  elsewhere n at p e other (now, refusal) = other (sym e ∙ now)

  accepted :
      (n : Node) (p : State)
      → (c.vault_unseal (name_of n names) key p.world.vault).0 ≡ ok tt
      → RefusedNow n p
      → ⊥
  accepted n p e (now, (x, refusal)) = cc

  client-Step :
      (kube : c.Kube) (n : Node) (b : Bool) (p : State)
      → worker n p.workers ≡ starting
      → p.world.kube ≡ kube
      → p.status ≡ running
      → Step kube n p (after_client c namespace key token names n b p)
  client-Step kube n true p e same r = (same, inl (r, elsewhere n starting p e (λ h. cc)))
  client-Step kube n false p e same r = (same, inl (r, elsewhere n starting p e (λ h. cc)))

  unseal-Step :
      (kube : c.Kube) (n : Node) (r : Result (Unit {0})) (p p' : State)
      → (c.vault_unseal (name_of n names) key p.world.vault).0 ≡ r
      → worker n p.workers ≡ asking
      → p'.world.kube ≡ kube
      → p'.status ≡ running
      → Step kube n p (after_unseal c namespace key token names n r p')
  unseal-Step kube n (ok tt) p p' e at same runs = (same, inl (runs, accepted n p e))
  unseal-Step kube n (err x) p p' e at same runs = (same, inr (refl, (at, (x, e))))

  worker_step-Step :
      (kube : c.Kube) (n : Node) (at : WorkerAt) (p : State)
      → worker n p.workers ≡ at
      → p.world.kube ≡ kube
      → p.status ≡ running
      → Step kube n p (worker_step c namespace key token names n at p)
  unfolding worker_step
  worker_step-Step kube n absent p e same r = (same, inl (r, elsewhere n absent p e (λ h. cc)))
  worker_step-Step kube n starting p e same r =
      client-Step kube n (c.accepts_address (address (name_of n names))) p e same r
  worker_step-Step kube n asking p e same r =
      unseal-Step kube n (c.vault_unseal (name_of n names) key p.world.vault).0 p
        (record p { world = (unseal c (name_of n names) key p.world).1 }) refl e same r
  worker_step-Step kube n unsealed p e same r = (same, inl (r, elsewhere n unsealed p e (λ h. cc)))
  worker_step-Step kube n no_client p e same r =
      (same, inl (r, elsewhere n no_client p e (λ h. cc)))

  -- A process that has ended does nothing any more.
  run-ended :
      (schedule : List Thread) (p : State)
      → p.status ≡ ended 1
      → run c namespace key token names schedule p ≡ p
  unfolding run advance
  run-ended [] p e = refl
  run-ended (thread ∷ schedule) p e =
      ap
        (λ s.
          run c namespace key token names schedule (advance c namespace key token names s thread p))
        e
      ∙ run-ended schedule p e

  advance-Step :
      (kube : c.Kube) (n : Node) (status : Status) (p : State)
      → p.status ≡ status
      → p.world.kube ≡ kube
      → p.status ≡ running
      → Step kube n p (advance c namespace key token names status (worker_thread n) p)
  unfolding advance
  advance-Step kube n running p e same r =
      worker_step-Step kube n (worker n p.workers) p refl same r
  advance-Step kube n (ended code) p e same r = cc
  advance-Step kube n crashed p e same r = cc

  run-Lost :
      (kube : c.Kube) (nodes : List Node) (p : State)
      → p.world.kube ≡ kube
      → p.status ≡ running
      → Lost kube nodes p (run c namespace key token names (workers_only nodes) p)
  unfolding run
  run-Lost kube [] p same r = (same, inl (r, λ h. h))
  run-Lost kube (n ∷ nodes) p same r =
      by (advance-Step kube n p.status p refl same r) (λ same' r'. run-Lost kube nodes p' same' r')
    where
      p' : State
      p' = advance c namespace key token names p.status (worker_thread n) p

      neither : (RefusedNow n p → ⊥) → (Refused nodes p' → ⊥) → Refused (n ∷ nodes) p → ⊥
      neither now then (inl h) = now h
      neither now then (inr h) = then h

      later :
          (RefusedNow n p → ⊥)
          → Lost kube nodes p' (run c namespace key token names (workers_only nodes) p')
          → Lost kube (n ∷ nodes) p (run c namespace key token names (workers_only nodes) p')
      later now (kept, inl (runs, then)) = (kept, inl (runs, neither now then))
      later now (kept, inr (over, refused)) = (kept, inr (over, inr refused))

      by :
          Step kube n p p'
          → (p'.world.kube ≡ kube
              → p'.status ≡ running
              → Lost kube nodes p' (run c namespace key token names (workers_only nodes) p'))
          → Lost kube (n ∷ nodes) p (run c namespace key token names (workers_only nodes) p')
      by (kept, inl (runs, now)) rest = later now (rest kept runs)
      by (kept, inr (over, refused)) rest =
          rw (run-ended (workers_only nodes) p' over) (kept, inr (over, inl refused))

  -- As long as only the workers are scheduled, in whatever order, Kubernetes is as it was before the
  -- goroutines were started. The process runs if Vault answered none of the workers that asked with
  -- an error; else it was ended with status 1, before the key was stored.
  pub run-workers_only :
      (nodes : List Node) (at : MainAt) (w : World c.Kube c.Vault)
      → Lost w.kube nodes (spawned c namespace key token names at w) (
          run c namespace key token names
            (workers_only nodes)
            (spawned c namespace key token names at w))
  unfolding spawned
  run-workers_only nodes at w =
      run-Lost w.kube nodes (spawned c namespace key token names at w) refl refl
