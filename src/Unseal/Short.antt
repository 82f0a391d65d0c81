-- ===== src/Unseal/Short.antt =====
-- A VAULT_CLUSTER of fewer than three names: the main thread panics after Vault was initialised,
-- and its deferred wait is for workers that were never started.
use service_identity_provide.Base.{
  ℕ, zero, suc, String, Bool, true, false, none, List, [], ◌∷◌, ◌≡◌, ◌⊎◌, inl, inr, refl, ap, subst,
  sym, arith, if◌then◌else◌,
}
use service_identity_provide.Objects.{Result, ok, err}
use service_identity_provide.Cluster.{Cluster, World, Status, running, ended, crashed}
use service_identity_provide.Cluster.Api.{unseal}
use service_identity_provide.Unseal.Process.{
  Node, node_0, node_1, node_2, WorkerAt, absent, starting, asking, unsealed, no_client, worker,
  name_at, name_of, started, address, MainAt, unwinding, Process, Thread, main_thread,
  worker_thread, wait_to_panic, any_moves, main_step, after_client, after_unseal, worker_step,
  advance, run, main_from, spawned,
}
use service_identity_provide.Unseal.Counting.{left, unfinished, Counts, advance-Counts}
use service_identity_provide.Unseal.Waiting.{spawned-Counts}

module _ (c : Cluster) (namespace key token : String) (names : List String) where
  abbrev pub State : Type 0
  State = Process c.Kube c.Vault

  -- Kubernetes is as before, and the process still runs or was ended, by a worker with status 1 or
  -- by the runtime of Go with status 2.
  abbrev pub Lost : World c.Kube c.Vault → State → Type 0
  Lost w p =
      (p.world.kube ≡ w.kube)
      × ((p.status ≡ running) ⊎ ((p.status ≡ ended 1) ⊎ (p.status ≡ ended 2)))

  abbrev Stuck : World c.Kube c.Vault → State → Type 0
  Stuck w p = (p.main ≡ unwinding) × ((p.workers.worker_2 ≡ absent) × Lost w p)

  blocked-Stuck :
      (w : World c.Kube c.Vault) (b : Bool) (p : State)
      → Stuck w p
      → Stuck w (if b then p else record p { status = ended 2 })
  blocked-Stuck w true p s = s
  blocked-Stuck w false p (main, (two, (same, _))) = (main, (two, (same, inr (inr refl))))

  panic-Stuck :
      (w : World c.Kube c.Vault) (pending : ℕ) (p : State)
      → p.pending ≡ pending
      → p.pending ≡ unfinished p.workers
      → Stuck w p
      → Stuck w (wait_to_panic c namespace key token names pending p)
  panic-Stuck w zero p e count (main, (two, lost)) = absurd (impossible (ap left two))
    where
      impossible : left p.workers.worker_2 ≡ 1 → ⊥
      impossible one = omega arith
  panic-Stuck w (suc n) p e count s = blocked-Stuck w (any_moves p.workers) p s

  client-Stuck :
      (w : World c.Kube c.Vault) (n : Node) (b : Bool) (p : State)
      → worker n p.workers ≡ starting
      → Stuck w p
      → Stuck w (after_client c namespace key token names n b p)
  client-Stuck w node_0 true p at s = s
  client-Stuck w node_0 false p at s = s
  client-Stuck w node_1 true p at s = s
  client-Stuck w node_1 false p at s = s
  client-Stuck w node_2 b p at (main, (two, lost)) = absurd (other at two)
    where
      other : p.workers.worker_2 ≡ starting → p.workers.worker_2 ≡ absent → ⊥
      other h k = cc

  unseal-Stuck :
      (w : World c.Kube c.Vault) (n : Node) (reply : Result (Unit {0})) (p : State)
      → worker n p.workers ≡ asking
      → Stuck w p
      → Stuck w (after_unseal c namespace key token names n reply p)
  unseal-Stuck w node_0 (ok _) p at s = s
  unseal-Stuck w node_1 (ok _) p at s = s
  unseal-Stuck w node_2 (ok _) p at (main, (two, lost)) = absurd (other at two)
    where
      other : p.workers.worker_2 ≡ asking → p.workers.worker_2 ≡ absent → ⊥
      other h k = cc
  unseal-Stuck w n (err e) p at (main, (two, (same, _))) = (main, (two, (same, inr (inl refl))))

  worker_step-Stuck :
      (w : World c.Kube c.Vault) (n : Node) (at : WorkerAt) (p : State)
      → worker n p.workers ≡ at
      → Stuck w p
      → Stuck w (worker_step c namespace key token names n at p)
  unfolding worker_step
  worker_step-Stuck w n absent p at s = s
  worker_step-Stuck w n starting p at s =
      client-Stuck w n (c.accepts_address (address (name_of n names))) p at s
  worker_step-Stuck w n asking p at s =
      unseal-Stuck w n (c.vault_unseal (name_of n names) key p.world.vault).0
        (record p { world = (unseal c (name_of n names) key p.world).1 }) at s
  worker_step-Stuck w n unsealed p at s = s
  worker_step-Stuck w n no_client p at s = s

  advance-Stuck :
      (w : World c.Kube c.Vault) (status : Status) (thread : Thread) (p : State)
      → Counts c namespace key token names p
      → Stuck w p
      → Stuck w (advance c namespace key token names status thread p)
  unfolding advance main_step
  advance-Stuck w running main_thread p k s =
      subst (λ at. Stuck w (main_step c namespace key token names at p)) (sym s.0)
        (panic-Stuck w p.pending p refl k.0 s)
  advance-Stuck w running (worker_thread n) p k s =
      worker_step-Stuck w n (worker n p.workers) p refl s
  advance-Stuck w (ended code) thread p k s = s
  advance-Stuck w crashed thread p k s = s

  run-Stuck :
      (w : World c.Kube c.Vault) (schedule : List Thread) (p : State)
      → Counts c namespace key token names p
      → Stuck w p
      → Stuck w (run c namespace key token names schedule p)
  unfolding run
  run-Stuck w [] p k s = s
  run-Stuck w (thread ∷ schedule) p k s =
      run-Stuck w schedule _ (advance-Counts c namespace key token names p.status thread p refl k)
        (advance-Stuck w p.status thread p k s)

  -- If VAULT_CLUSTER has fewer than three names, then on every schedule nothing is stored in
  -- Kubernetes, the unseal key of a Vault that was just initialised included, and the process
  -- runs on until a worker ends it with status 1 or the runtime of Go with status 2.
  pub run-short :
      (at : MainAt) (schedule : List Thread) (w : World c.Kube c.Vault)
      → name_at node_2 names ≡ none
      → Lost w (run c namespace key token names schedule (spawned c namespace key token names at w))
  unfolding spawned
  run-short at schedule w missing =
      (run-Stuck w schedule (spawned c namespace key token names at w)
        (spawned-Counts c namespace key token names at w)
        (
          ap (main_from c namespace key token names at) missing,
          (ap started missing, (refl, inl refl)),
        )).1.1
