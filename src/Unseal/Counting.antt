-- ===== src/Unseal/Counting.antt =====
-- The counter of the wait group is the number of workers that have not ended, at every step.
use service_identity_provide.Base.{
  ℕ, zero, suc, ◌+◌, ◌-◌, String, Bool, true, false, List, ◌≡◌, refl, ◌∙◌, ap, sym, arith,
  if◌then◌else◌,
}
use service_identity_provide.Objects.{Result, ok, err}
use service_identity_provide.Cluster.{Cluster, World, Status, running, ended, crashed}
use service_identity_provide.Cluster.Api.{unseal}
use service_identity_provide.Persist.{Progress, next, done, stopped, broke, persist_step, Stage}
use service_identity_provide.Unseal.Process.{
  Node, node_0, node_1, node_2, WorkerAt, absent, starting, asking, unsealed, no_client, Workers,
  worker, set_worker, name_of, address, MainAt, storing_key, storing_token, waiting, unwinding,
  Process, Thread, main_thread, worker_thread, main_progress, wait, wait_to_panic, main_step,
  worker_done, after_client, after_unseal, worker_step, advance, key_secret, token_secret, set_key,
  set_token, any_moves,
}

-- 1 for a worker that has not called `wg.Done()`.
abbrev pub left : WorkerAt → ℕ
left absent = 1
left starting = 1
left asking = 1
left unsealed = 0
left no_client = 0

abbrev pub unfinished : Workers → ℕ
unfinished ws = left ws.worker_0 + left ws.worker_1 + left ws.worker_2

-- One worker moved on.
pub set_worker-same :
    (n : Node) (at : WorkerAt) (ws : Workers)
    → left (worker n ws) ≡ left at
    → unfinished (set_worker n at ws) ≡ unfinished ws
set_worker-same node_0 at ws h = omega arith
set_worker-same node_1 at ws h = omega arith
set_worker-same node_2 at ws h = omega arith

pub set_worker-less :
    (n : Node) (at : WorkerAt) (ws : Workers)
    → left (worker n ws) ≡ 1
    → left at ≡ 0
    → unfinished (set_worker n at ws) ≡ unfinished ws - 1
set_worker-less node_0 at ws h e = omega arith
set_worker-less node_1 at ws h e = omega arith
set_worker-less node_2 at ws h e = omega arith

pub set_worker-each :
    (P : Node → WorkerAt → Type 0) (n : Node) (at : WorkerAt) (ws : Workers)
    → ((m : Node) → P m (worker m ws))
    → P n at
    → (m : Node) → P m (worker m (set_worker n at ws))
set_worker-each P node_0 at ws each new node_0 = new
set_worker-each P node_0 at ws each new node_1 = each node_1
set_worker-each P node_0 at ws each new node_2 = each node_2
set_worker-each P node_1 at ws each new node_0 = each node_0
set_worker-each P node_1 at ws each new node_1 = new
set_worker-each P node_1 at ws each new node_2 = each node_2
set_worker-each P node_2 at ws each new node_0 = each node_0
set_worker-each P node_2 at ws each new node_1 = each node_1
set_worker-each P node_2 at ws each new node_2 = new

pub not_ended : (s : Status) → s ≡ running → s ≡ ended 0 → ⊥
not_ended s r e = cc

module _ (c : Cluster) (namespace key token : String) (names : List String) where
  abbrev pub State : Type 0
  State = Process c.Kube c.Vault

  -- Only a worker for whose node no client can be made ends without its request.
  abbrev pub ByClient : Node → WorkerAt → Type 0
  ByClient n at = at ≡ no_client → c.accepts_address (address (name_of n names)) ≡ false

  abbrev pub Counts : State → Type 0
  Counts p =
      (p.pending ≡ unfinished p.workers)
      × (((n : Node) → ByClient n (worker n p.workers))
          × (p.status ≡ ended 0 → unfinished p.workers ≡ 0))

  main_progress-Counts :
      (at : Stage → MainAt) (after : MainAt) (r : Progress) (w : World c.Kube c.Vault) (p : State)
      → Counts p
      → Counts (main_progress c namespace key token names at after r w p)
  main_progress-Counts at after (next stage) w p k = k
  main_progress-Counts at after done w p k = k
  main_progress-Counts at after stopped w p (n, (by, z)) = (n, (by, λ h. cc))
  main_progress-Counts at after broke w p k = k

  blocked-Counts :
      (b : Bool) (p : State) → Counts p → Counts (if b then p else record p { status = ended 2 })
  blocked-Counts true p k = k
  blocked-Counts false p (n, (by, z)) = (n, (by, λ h. cc))

  wait-Counts :
      (pending : ℕ) (p : State)
      → p.pending ≡ pending
      → Counts p
      → Counts (wait c namespace key token names pending p)
  wait-Counts zero p e (n, (by, z)) = (n, (by, λ h. sym n ∙ e))
  wait-Counts (suc m) p e k = blocked-Counts (any_moves p.workers) p k

  panic-Counts :
      (pending : ℕ) (p : State)
      → Counts p
      → Counts (wait_to_panic c namespace key token names pending p)
  panic-Counts zero p (n, (by, z)) = (n, (by, λ h. cc))
  panic-Counts (suc m) p k = blocked-Counts (any_moves p.workers) p k

  main_step-Counts :
      (at : MainAt) (p : State) → Counts p → Counts (main_step c namespace key token names at p)
  unfolding main_step
  main_step-Counts (storing_key stage) p k =
      let (r, w) = persist_step c (key_secret namespace key) (set_key key) stage p.world in
      main_progress-Counts storing_key _ r w p k
  main_step-Counts (storing_token stage) p k =
      let (r, w) = persist_step c (token_secret namespace token) (set_token token) stage p.world in
      main_progress-Counts storing_token _ r w p k
  main_step-Counts waiting p k = wait-Counts p.pending p refl k
  main_step-Counts unwinding p k = panic-Counts p.pending p k

  done-Counts :
      (n : Node) (at : WorkerAt) (p : State)
      → left (worker n p.workers) ≡ 1
      → left at ≡ 0
      → ByClient n at
      → p.status ≡ running
      → Counts p
      → Counts (worker_done c namespace key token names n at p)
  done-Counts n at p h e by r (count, (each, z)) = (
    ap (λ m. m - 1) count ∙ sym (set_worker-less n at p.workers h e),
    (set_worker-each ByClient n at p.workers each by, λ over. absurd (not_ended p.status r over)),
  )

  client-Counts :
      (n : Node) (b : Bool) (p : State)
      → c.accepts_address (address (name_of n names)) ≡ b
      → worker n p.workers ≡ starting
      → p.status ≡ running
      → Counts p
      → Counts (after_client c namespace key token names n b p)
  client-Counts n true p e at r (count, (each, z)) = (
    count ∙ sym (set_worker-same n asking p.workers (ap left at)),
    (
      set_worker-each ByClient n asking p.workers each (λ h. cc),
      λ over. absurd (not_ended p.status r over),
    ),
  )
  client-Counts n false p e at r k = done-Counts n no_client p (ap left at) refl (λ _. e) r k

  unseal-Counts :
      (n : Node) (reply : Result (Unit {0})) (p : State)
      → worker n p.workers ≡ asking
      → p.status ≡ running
      → Counts p
      → Counts (after_unseal c namespace key token names n reply p)
  unseal-Counts n (ok _) p at r k = done-Counts n unsealed p (ap left at) refl (λ h. cc) r k
  unseal-Counts n (err e) p at r (count, (each, z)) = (count, (each, λ h. cc))

  worker_step-Counts :
      (n : Node) (at : WorkerAt) (p : State)
      → worker n p.workers ≡ at
      → p.status ≡ running
      → Counts p
      → Counts (worker_step c namespace key token names n at p)
  unfolding worker_step
  worker_step-Counts n absent p at r k = k
  worker_step-Counts n starting p at r k =
      client-Counts n (c.accepts_address (address (name_of n names))) p refl at r k
  worker_step-Counts n asking p at r k =
      unseal-Counts n (c.vault_unseal (name_of n names) key p.world.vault).0
        (record p { world = (unseal c (name_of n names) key p.world).1 }) at r k
  worker_step-Counts n unsealed p at r k = k
  worker_step-Counts n no_client p at r k = k

  pub advance-Counts :
      (status : Status) (thread : Thread) (p : State)
      → p.status ≡ status
      → Counts p
      → Counts (advance c namespace key token names status thread p)
  unfolding advance
  advance-Counts running main_thread p r k = main_step-Counts p.main p k
  advance-Counts running (worker_thread n) p r k =
      worker_step-Counts n (worker n p.workers) p refl r k
  advance-Counts (ended code) thread p r k = k
  advance-Counts crashed thread p r k = k
