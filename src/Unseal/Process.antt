-- ===== src/Unseal/Process.antt =====
-- `main`, `initVault`, `unSeal` and the three goroutines of `unSealWorker`, as threads. The workers
-- only talk to Vault, the main thread only to Kubernetes; they share the wait group. A thread's
-- step is one request with what the code makes of its answer.
use service_identity_provide.Base.{
  ℕ, zero, suc, ◌-◌, String, ◌<>◌, Bool, true, false, ◌||◌, Option, none, some, List, [], ◌∷◌,
  if◌then◌else◌,
}
use service_identity_provide.Base.Fields.{Fields, assign}
use service_identity_provide.Objects.{Secret, Result, ok, err}
use service_identity_provide.Cluster.{Cluster, World, Status, running, ended, crashed}
use service_identity_provide.Cluster.Api.{unseal}
use service_identity_provide.Persist.{
  Stage, creating, Progress, next, done, stopped, broke, persist_step,
}

-- `VAULT_CLUSTER` split at its commas, with the domain of the cluster.
abbrev pub fqdn : String → String → String → String
fqdn namespace domain member =
    member <> ("." <> ("vault-internal" <> ("." <> (namespace <> ("." <> ("svc." <> domain))))))

abbrev pub fqdns : String → String → List String → List String
fqdns namespace domain [] = []
fqdns namespace domain (member ∷ rest) = fqdn namespace domain member ∷ fqdns namespace domain rest

-- The address of a node for `vault.New`.
abbrev pub address : String → String
address node = "https://" <> (node <> ":8200")

pub data Node : Type 0 where
  node_0 node_1 node_2 : Node

-- Where a worker is: not started at all, before its client was made, before its request, or at its
-- end, after the request or without a client.
pub data WorkerAt : Type 0 where
  absent starting asking unsealed no_client : WorkerAt

pub record Workers : Type 0 where
  pub worker_0 : WorkerAt
  pub worker_1 : WorkerAt
  pub worker_2 : WorkerAt

abbrev pub worker : Node → Workers → WorkerAt
worker node_0 ws = ws.worker_0
worker node_1 ws = ws.worker_1
worker node_2 ws = ws.worker_2

abbrev pub set_worker : Node → WorkerAt → Workers → Workers
set_worker node_0 at ws = record ws { worker_0 = at }
set_worker node_1 at ws = record ws { worker_1 = at }
set_worker node_2 at ws = record ws { worker_2 = at }

-- A worker that can still make a step.
abbrev pub can_move : WorkerAt → Bool
can_move absent = false
can_move starting = true
can_move asking = true
can_move unsealed = false
can_move no_client = false

abbrev pub any_moves : Workers → Bool
any_moves ws = can_move ws.worker_0 || (can_move ws.worker_1 || can_move ws.worker_2)

-- `vaultFQDNs[0]`, `vaultFQDNs[1]` and `vaultFQDNs[2]`; the first that is missing panics.
abbrev pub name_at : Node → List String → Option String
name_at node_0 (a ∷ _) = some a
name_at node_1 (_ ∷ b ∷ _) = some b
name_at node_2 (_ ∷ _ ∷ c ∷ _) = some c
name_at _ _ = none

abbrev pub name_of : Node → List String → String
name_of n names = elim (name_at n names) [ none ↦ "" | some name ↦ name ]

abbrev pub started : Option String → WorkerAt
started none = absent
started (some name) = starting

-- Where the main thread is: at the Secret with the key, at the one with the token, at the wait
-- group, or there with a panic on its way, since the wait is deferred.
pub data MainAt : Type 0 where
  storing_key storing_token : Stage → MainAt
  waiting unwinding : MainAt

-- `pending` is the counter of the wait group.
pub record Process (K V : Type 0) : Type 0 where
  pub world : World K V
  pub main : MainAt
  pub workers : Workers
  pub pending : ℕ
  pub status : Status

pub data Thread : Type 0 where
  main_thread : Thread
  worker_thread : Node → Thread

abbrev pub key_secret : String → String → Secret
key_secret namespace key = record {
  name = "vault-unseal-key";
  namespace = namespace;
  data_fields = [];
  string_data = ("key", key) ∷ [];
  secret_type = "Opaque";
  owner = none;
}

abbrev pub token_secret : String → String → Secret
token_secret namespace token = record {
  name = "vault-root-token";
  namespace = namespace;
  data_fields = [];
  string_data = ("token", token) ∷ [];
  secret_type = "Opaque";
  owner = none;
}

abbrev pub set_key : String → Fields → Fields
set_key key d = assign d "key" key

abbrev pub set_token : String → Fields → Fields
set_token token d = assign d "token" token

module _ (c : Cluster) (namespace key token : String) (names : List String) where
  abbrev pub State : Type 0
  State = Process c.Kube c.Vault

  -- A request of the main thread, whose progress is put where the main thread is.
  abbrev pub main_progress :
      (Stage → MainAt) → MainAt → Progress → World c.Kube c.Vault → State → State
  main_progress at after (next stage) w p = record p { world = w; main = at stage }
  main_progress at after done w p = record p { world = w; main = after }
  main_progress at after stopped w p = record p { world = w; status = ended 1 }
  main_progress at after broke w p = record p { world = w; main = unwinding }

  -- The main thread in `wg.Wait()`, with a counter that is not 0. Where no worker can make a step
  -- any more, all goroutines are asleep, and the runtime of Go ends the process with status 2, as
  -- soon as the connections that the workers left idle are closed.
  abbrev pub blocked_in_wait : State → State
  blocked_in_wait p = if any_moves p.workers then p else record p { status = ended 2 }

  -- `wg.Wait()` and `os.Exit(0)`.
  abbrev pub wait : ℕ → State → State
  wait zero p = record p { status = ended 0 }
  wait (suc n) p = blocked_in_wait p

  abbrev pub wait_to_panic : ℕ → State → State
  wait_to_panic zero p = record p { status = crashed }
  wait_to_panic (suc n) p = blocked_in_wait p

  unfoldable pub main_step : MainAt → State → State
  unfolding persist_step
  main_step (storing_key stage) p =
      let (r, w) = persist_step c (key_secret namespace key) (set_key key) stage p.world in
      main_progress storing_key (storing_token creating) r w p
  main_step (storing_token stage) p =
      let (r, w) = persist_step c (token_secret namespace token) (set_token token) stage p.world in
      main_progress storing_token waiting r w p
  main_step waiting p = wait p.pending p
  main_step unwinding p = wait_to_panic p.pending p

  -- A worker that ends calls `wg.Done()`.
  abbrev pub worker_done : Node → WorkerAt → State → State
  worker_done n at p = record p { workers = set_worker n at p.workers; pending = p.pending - 1 }

  abbrev pub after_client : Node → Bool → State → State
  after_client n true p = record p { workers = set_worker n asking p.workers }
  after_client n false p = worker_done n no_client p

  abbrev pub after_unseal : Node → Result (Unit {0}) → State → State
  after_unseal n (ok _) p = worker_done n unsealed p
  after_unseal n (err e) p = record p { status = ended 1 }

  unfoldable pub worker_step : Node → WorkerAt → State → State
  worker_step n starting p = after_client n (c.accepts_address (address (name_of n names))) p
  worker_step n asking p =
      let r = c.vault_unseal (name_of n names) key p.world.vault in
      after_unseal n r.0 (record p { world = (unseal c (name_of n names) key p.world).1 })
  worker_step n absent p = p
  worker_step n unsealed p = p
  worker_step n no_client p = p

  unfoldable pub advance : Status → Thread → State → State
  unfolding main_step worker_step
  advance running main_thread p = main_step p.main p
  advance running (worker_thread n) p = worker_step n (worker n p.workers) p
  advance (ended code) thread p = p
  advance crashed thread p = p

  -- The steps of a schedule, one after another.
  unfoldable pub run : List Thread → State → State
  unfolding advance
  run [] p = p
  run (thread ∷ schedule) p = run schedule (advance p.status thread p)

  -- The main thread once it has started the goroutines: where a name is missing it panics.
  abbrev pub main_from : MainAt → Option String → MainAt
  main_from at none = unwinding
  main_from at (some name) = at

  unfoldable pub spawned : MainAt → World c.Kube c.Vault → State
  spawned at w = record {
    world = w;
    main = main_from at (name_at node_2 names);
    workers = record {
      worker_0 = started (name_at node_0 names);
      worker_1 = started (name_at node_1 names);
      worker_2 = started (name_at node_2 names);
    };
    pending = 3;
    status = running;
  }
