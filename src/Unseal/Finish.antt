-- ===== src/Unseal/Finish.antt =====
-- What the unsealing job has stored where it ends.
use service_identity_provide.Base.{
  zero, suc, String, Bool, true, false, Option, none, some, List, [], ◌∷◌, ◌≡◌, refl,
}
use service_identity_provide.Objects.{Result, ok, err}
use service_identity_provide.Cluster.{Cluster, World, Status, running, ended, crashed}
use service_identity_provide.Cluster.Laws.{KubeLaws, Secrets}
use service_identity_provide.Cluster.Api.{unseal}
use service_identity_provide.Persist.{creating}
use service_identity_provide.Unseal.Process.{
  Node, node_2, WorkerAt, absent, starting, asking, unsealed, no_client, worker, name_at, name_of,
  address, storing_key, Process, Thread, main_thread, worker_thread, after_client, after_unseal,
  worker_step, advance, run, main_from, spawned,
}
use service_identity_provide.Unseal.Stores.{BothHeld, Kept, Others, Stores, main_step-Stores}

module _ (c : Cluster) (L : KubeLaws c) (namespace key token : String) (names : List String) where
  abbrev pub State : Type 0
  State = Process c.Kube c.Vault

  client-Stores :
      (before : Secrets) (n : Node) (b : Bool) (p : State)
      → Stores c L namespace key token names before p
      → Stores c L namespace key token names before (after_client c namespace key token names n b p)
  client-Stores before n true p s = s
  client-Stores before n false p s = s

  unseal-Stores :
      (before : Secrets) (n : Node) (reply : Result (Unit {0})) (p : State)
      → Stores c L namespace key token names before p
      → Stores c L namespace key token names before
          (after_unseal c namespace key token names n reply p)
  unseal-Stores before n (ok _) p s = s
  unseal-Stores before n (err e) p (k, (o, z)) = (λ e. cc, (o, λ e. cc))

  worker_step-Stores :
      (before : Secrets) (n : Node) (at : WorkerAt) (p : State)
      → Stores c L namespace key token names before p
      → Stores c L namespace key token names before (worker_step c namespace key token names n at p)
  unfolding worker_step
  worker_step-Stores before n absent p s = s
  worker_step-Stores before n starting p s =
      client-Stores before n (c.accepts_address (address (name_of n names))) p s
  worker_step-Stores before n asking p s =
      unseal-Stores before n (c.vault_unseal (name_of n names) key p.world.vault).0
        (record p { world = (unseal c (name_of n names) key p.world).1 }) s
  worker_step-Stores before n unsealed p s = s
  worker_step-Stores before n no_client p s = s

  advance-Stores :
      (before : Secrets) (status : Status) (thread : Thread) (p : State)
      → p.status ≡ status
      → Stores c L namespace key token names before p
      → Stores c L namespace key token names before
          (advance c namespace key token names status thread p)
  unfolding advance
  advance-Stores before running main_thread p r s =
      main_step-Stores c L namespace key token names before p.main p r (s.0 r) s
  advance-Stores before running (worker_thread n) p r s =
      worker_step-Stores before n (worker n p.workers) p s
  advance-Stores before (ended code) thread p r s = s
  advance-Stores before crashed thread p r s = s

  run-Stores :
      (before : Secrets) (schedule : List Thread) (p : State)
      → Stores c L namespace key token names before p
      → Stores c L namespace key token names before (run c namespace key token names schedule p)
  unfolding run
  run-Stores before [] p s = s
  run-Stores before (thread ∷ schedule) p s =
      run-Stores before schedule _ (advance-Stores before p.status thread p refl s)

  spawned-Stores :
      (w : World c.Kube c.Vault)
      → Stores c L namespace key token names
          (L.secrets w.kube)
          (spawned c namespace key token names (storing_key creating) w)
  unfolding spawned
  spawned-Stores w = (λ _. first (name_at node_2 names), (λ _ _ _. refl, λ e. cc))
    where
      first :
          (o : Option String)
          → Kept c L namespace key token names
              (main_from c namespace key token names (storing_key creating) o)
              (L.secrets w.kube)
      first none = tt
      first (some name) = tt

  pub run-BothHeld :
      (schedule : List Thread) (w : World c.Kube c.Vault)
      → let p =
          run c namespace key token names schedule
            (spawned c namespace key token names (storing_key creating) w) in
        p.status ≡ ended 0 → BothHeld c L namespace key token names (L.secrets p.world.kube)
  run-BothHeld schedule w = (run-Stores (L.secrets w.kube) schedule _ (spawned-Stores w)).1.1

  -- What a process has left, by its status.
  abbrev pub Left : Status → Secrets → Secrets → Type 0
  Left (ended zero) before after =
      Others c L namespace key token names before after
      × BothHeld c L namespace key token names after
  Left (ended (suc n)) before after = Others c L namespace key token names before after
  Left running before after = Others c L namespace key token names before after
  Left crashed before after = Others c L namespace key token names before after

  ended-Left :
      (before : Secrets) (status : Status) (p : State)
      → p.status ≡ status
      → Stores c L namespace key token names before p
      → Left status before (L.secrets p.world.kube)
  ended-Left before (ended zero) p e (kept, (others, held)) = (others, held e)
  ended-Left before (ended (suc n)) p e (kept, (others, held)) = others
  ended-Left before running p e (kept, (others, held)) = others
  ended-Left before crashed p e (kept, (others, held)) = others

  -- On every schedule of the initialisation, wherever the process is or ended, no Secret has changed
  -- but vault-unseal-key and vault-root-token of the job's namespace; and if it ended with status 0,
  -- then the first holds the unseal key and the second the root token.
  pub run-Left :
      (schedule : List Thread) (w : World c.Kube c.Vault)
      → let p =
          run c namespace key token names schedule
            (spawned c namespace key token names (storing_key creating) w) in
        Left p.status (L.secrets w.kube) (L.secrets p.world.kube)
  run-Left schedule w =
      let p =
        run c namespace key token names schedule
          (spawned c namespace key token names (storing_key creating) w) in
      ended-Left (L.secrets w.kube) p.status p refl
        (run-Stores (L.secrets w.kube) schedule _ (spawned-Stores w))
