-- ===== src/Unseal/Answered.antt =====
-- A worker is at `unsealed` only after a step in which Vault answered its request without an error.
use service_identity_provide.Base.{
  ℕ, zero, suc, String, Bool, true, false, List, [], ◌∷◌, ◌≡◌, ◌⊎◌, inl, inr, refl, if◌then◌else◌,
  ap, sym, ◌∙◌,
}
use service_identity_provide.Objects.{Result, ok, err}
use service_identity_provide.Cluster.{Cluster, World, Status, running, ended, crashed}
use service_identity_provide.Cluster.Api.{unseal}
use service_identity_provide.Persist.{Progress, next, done, stopped, broke, persist_step, Stage}
use service_identity_provide.Unseal.Process.{
  Node, node_0, node_1, node_2, WorkerAt, absent, starting, asking, unsealed, no_client, Workers,
  worker, set_worker, name_of, address, MainAt, storing_key, storing_token, waiting, unwinding,
  Process, Thread, main_thread, worker_thread, main_progress, wait, wait_to_panic, main_step,
  after_client, after_unseal, worker_step, advance, run, key_secret, token_secret, set_key,
  set_token, any_moves,
}

-- A worker that moved is at its new place, and every other one is where it was.
moved :
    (n m : Node) (at : WorkerAt) (ws : Workers)
    → ((n ≡ m) × (worker n (set_worker m at ws) ≡ at))
      ⊎ (worker n (set_worker m at ws) ≡ worker n ws)
moved node_0 node_0 at ws = inl (refl, refl)
moved node_0 node_1 at ws = inr refl
moved node_0 node_2 at ws = inr refl
moved node_1 node_0 at ws = inr refl
moved node_1 node_1 at ws = inl (refl, refl)
moved node_1 node_2 at ws = inr refl
moved node_2 node_0 at ws = inr refl
moved node_2 node_1 at ws = inr refl
moved node_2 node_2 at ws = inl (refl, refl)

module _ (c : Cluster) (namespace key token : String) (names : List String) where
  abbrev pub State : Type 0
  State = Process c.Kube c.Vault

  -- The step of the worker in which it sends its request, and Vault answers without an error.
  abbrev pub Asked : Node → Thread → State → Type 0
  Asked n thread p =
      (p.status ≡ running)
      × ((thread ≡ worker_thread n)
          × ((worker n p.workers ≡ asking)
              × ((c.vault_unseal (name_of n names) key p.world.vault).0 ≡ ok tt)))

  -- One of the steps of a schedule is such a step.
  abbrev pub Answered : Node → List Thread → State → Type 0
  Answered n [] p = ⊥
  Answered n (thread ∷ schedule) p =
      Asked n thread p ⊎ Answered n schedule (advance c namespace key token names p.status thread p)

  -- After a step, the worker is as it was, or not at `unsealed`, or it was this step.
  abbrev Moved : Node → Thread → State → State → Type 0
  Moved n thread p p' =
      (worker n p'.workers ≡ unsealed) → (worker n p.workers ≡ unsealed) ⊎ Asked n thread p

  progress-same :
      (n : Node) (at : Stage → MainAt) (after : MainAt) (r : Progress) (w : World c.Kube c.Vault)
      (p : State)
      → (main_progress c namespace key token names at after r w p).workers ≡ p.workers
  progress-same n at after (next stage) w p = refl
  progress-same n at after done w p = refl
  progress-same n at after stopped w p = refl
  progress-same n at after broke w p = refl

  blocked-same :
      (b : Bool) (p : State) → (if b then p else record p { status = ended 2 }).workers ≡ p.workers
  blocked-same true p = refl
  blocked-same false p = refl

  wait-same :
      (pending : ℕ) (p : State) → (wait c namespace key token names pending p).workers ≡ p.workers
  wait-same zero p = refl
  wait-same (suc n) p = blocked-same (any_moves p.workers) p

  panic-same :
      (pending : ℕ) (p : State)
      → (wait_to_panic c namespace key token names pending p).workers ≡ p.workers
  panic-same zero p = refl
  panic-same (suc n) p = blocked-same (any_moves p.workers) p

  main_step-same :
      (n : Node) (at : MainAt) (p : State)
      → (main_step c namespace key token names at p).workers ≡ p.workers
  unfolding main_step
  main_step-same n (storing_key stage) p =
      let (r, w) = persist_step c (key_secret namespace key) (set_key key) stage p.world in
      progress-same n storing_key _ r w p
  main_step-same n (storing_token stage) p =
      let (r, w) = persist_step c (token_secret namespace token) (set_token token) stage p.world in
      progress-same n storing_token _ r w p
  main_step-same n waiting p = wait-same p.pending p
  main_step-same n unwinding p = panic-same p.pending p

  -- Another place than `unsealed`.
  other-Moved :
      (n m : Node) (at : WorkerAt) (thread : Thread) (p p' : State)
      → (at ≡ unsealed → ⊥)
      → p'.workers ≡ set_worker m at p.workers
      → Moved n thread p p'
  other-Moved n m at thread p p' other same h = by (moved n m at p.workers)
    where
      by :
          ((n ≡ m) × (worker n (set_worker m at p.workers) ≡ at))
            ⊎ (worker n (set_worker m at p.workers) ≡ worker n p.workers)
          → (worker n p.workers ≡ unsealed) ⊎ Asked n thread p
      by (inl (e, now)) = absurd (other (cc))
      by (inr now) = inl (cc)

  client-Moved :
      (n m : Node) (b : Bool) (thread : Thread) (p : State)
      → Moved n thread p (after_client c namespace key token names m b p)
  client-Moved n m true thread p =
      other-Moved n m asking thread p (after_client c namespace key token names m true p) (λ h. cc)
        refl
  client-Moved n m false thread p =
      other-Moved n m no_client thread p (after_client c namespace key token names m false p)
        (λ h. cc) refl

  unseal-Moved :
      (n m : Node) (r : Result (Unit {0})) (p p' : State)
      → p.status ≡ running
      → worker m p.workers ≡ asking
      → (c.vault_unseal (name_of m names) key p.world.vault).0 ≡ r
      → p'.workers ≡ p.workers
      → Moved n (worker_thread m) p (after_unseal c namespace key token names m r p')
  unseal-Moved n m (err e) p p' r at reply same h = inl cc
  unseal-Moved n m (ok tt) p p' r at reply same h = by (moved n m unsealed p'.workers)
    where
      by :
          ((n ≡ m) × (worker n (set_worker m unsealed p'.workers) ≡ unsealed))
            ⊎ (worker n (set_worker m unsealed p'.workers) ≡ worker n p'.workers)
          → (worker n p.workers ≡ unsealed) ⊎ Asked n (worker_thread m) p
      by (inl (e, now)) = inr (r, (cc, (cc, cc)))
      by (inr now) = inl cc

  worker_step-Moved :
      (n m : Node) (at : WorkerAt) (p : State)
      → p.status ≡ running
      → worker m p.workers ≡ at
      → Moved n (worker_thread m) p (worker_step c namespace key token names m at p)
  unfolding worker_step
  worker_step-Moved n m absent p r at h = inl h
  worker_step-Moved n m starting p r at h =
      client-Moved n m (c.accepts_address (address (name_of m names))) (worker_thread m) p h
  worker_step-Moved n m asking p r at h =
      unseal-Moved n m (c.vault_unseal (name_of m names) key p.world.vault).0 p
        (record p { world = (unseal c (name_of m names) key p.world).1 }) r at refl refl h
  worker_step-Moved n m unsealed p r at h = inl h
  worker_step-Moved n m no_client p r at h = inl h

  advance-Moved :
      (n : Node) (status : Status) (thread : Thread) (p : State)
      → p.status ≡ status
      → Moved n thread p (advance c namespace key token names status thread p)
  unfolding advance
  advance-Moved n running main_thread p r h =
      inl (ap (worker n) (sym (main_step-same n p.main p)) ∙ h)
  advance-Moved n running (worker_thread m) p r h =
      worker_step-Moved n m (worker m p.workers) p r refl h
  advance-Moved n (ended code) thread p r h = inl h
  advance-Moved n crashed thread p r h = inl h

  pub run-Answered :
      (n : Node) (schedule : List Thread) (p : State)
      → (worker n p.workers ≡ unsealed → ⊥)
      → worker n (run c namespace key token names schedule p).workers ≡ unsealed
      → Answered n schedule p
  unfolding run
  run-Answered n [] p not_yet h = not_yet h
  run-Answered n (thread ∷ schedule) p not_yet h =
      by (dec_unsealed (worker n p'.workers)) (λ later. run-Answered n schedule p' later h)
    where
      p' : State
      p' = advance c namespace key token names p.status thread p

      dec_unsealed : (at : WorkerAt) → (at ≡ unsealed) ⊎ (at ≡ unsealed → ⊥)
      dec_unsealed absent = inr (λ e. cc)
      dec_unsealed starting = inr (λ e. cc)
      dec_unsealed asking = inr (λ e. cc)
      dec_unsealed unsealed = inl refl
      dec_unsealed no_client = inr (λ e. cc)

      step : (worker n p.workers ≡ unsealed) ⊎ Asked n thread p → Answered n (thread ∷ schedule) p
      step (inl before) = absurd (not_yet before)
      step (inr asked) = inl asked

      by :
          (worker n p'.workers ≡ unsealed) ⊎ (worker n p'.workers ≡ unsealed → ⊥)
          → ((worker n p'.workers ≡ unsealed → ⊥) → Answered n schedule p')
          → Answered n (thread ∷ schedule) p
      by (inl now) rest = step (advance-Moved n p.status thread p refl now)
      by (inr later) rest = inr (rest later)
