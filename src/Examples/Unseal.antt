-- ===== src/Examples/Unseal.antt =====
-- The unsealing job on concrete schedules.
use service_identity_provide.Base.{◌+◌, ◌≤◌, String, ◌≡◌, refl, false, none, List, [], ◌∷◌}
use service_identity_provide.Objects.{other, err}
use service_identity_provide.Cluster.{Cluster, World, ended, returned}
use service_identity_provide.Cluster.Memory.{MemoryKube, MemoryVault, memory}
use service_identity_provide.Cluster.MemoryLaws.{memory-KubeLaws}
use service_identity_provide.Persist.{creating, persist_step}
use service_identity_provide.Unseal.Process.{
  Node, node_0, node_1, node_2, worker, fqdns, storing_key, Thread, main_thread, worker_thread,
  main_step, worker_step, advance, run, spawned, name_of,
}
use service_identity_provide.Unseal.Begin.{program, begin, by_health, begin_init, store}
use service_identity_provide.Unseal.Waiting.{Finished, run-Finished}
use service_identity_provide.Unseal.Finish.{Left, run-Left}
use service_identity_provide.Base.Split.{split}
use service_identity_provide.Unseal.Start
use service_identity_provide.Unseal.Start.{vault_fqdns}
use service_identity_provide.Unseal.KeyLost.{workers_only, Lost, run-workers_only}
use service_identity_provide.Unseal.Once.{initializations, allowed, process-AtMost}
use service_identity_provide.Operator.Manager
use service_identity_provide.Operator.Certs
use service_identity_provide.Operator.Cas
use service_identity_provide.Pki.Start.{init}
use service_identity_provide.Handover.{Carries, token_handed_over}
use service_identity_provide.Examples.Operator.{framework}

abbrev names : List String
names = fqdns "sip" "cluster.local" ("vault-0" ∷ "vault-1" ∷ "vault-2" ∷ [])

abbrev start : World MemoryKube MemoryVault
start = record {
  kube = record {
    certificates = λ k. none;
    client_cas = λ k. none;
    secrets = λ k. none;
    unreadable = false;
    csr = none;
  };
  vault = record { mounts = []; broken = false };
  trace = [];
}

-- The workers and the main thread take turns.
abbrev turns : List Thread
turns =
    worker_thread node_0
    ∷ main_thread
    ∷ worker_thread node_1
    ∷ worker_thread node_0
    ∷ worker_thread node_2
    ∷ main_thread
    ∷ worker_thread node_2
    ∷ worker_thread node_1
    ∷ main_thread
    ∷ []

turns_end :
    (run memory "sip" "UNSEAL" "s.root" names turns
      (spawned memory "sip" "UNSEAL" "s.root" names (storing_key creating) start)).status
    ≡ ended 0
unfolding run advance main_step worker_step persist_step spawned
turns_end = refl

run-Finished_example :
    Finished memory "sip" "UNSEAL" "s.root" names node_1 turns
      (spawned memory "sip" "UNSEAL" "s.root" names (storing_key creating) start)
      (worker node_1
        (run memory "sip" "UNSEAL" "s.root" names turns
          (spawned memory "sip" "UNSEAL" "s.root" names (storing_key creating) start)).workers)
run-Finished_example =
    run-Finished memory "sip" "UNSEAL" "s.root" names (storing_key creating) turns start node_1
      turns_end

run-Left_example :
    Left memory memory-KubeLaws "sip" "UNSEAL" "s.root" names
      (ended 0)
      (memory-KubeLaws.secrets start.kube)
      (memory-KubeLaws.secrets
        (run memory "sip" "UNSEAL" "s.root" names turns
          (spawned memory "sip" "UNSEAL" "s.root" names (storing_key creating) start)).world.kube)
unfolding run advance main_step worker_step persist_step spawned
run-Left_example = run-Left memory memory-KubeLaws "sip" "UNSEAL" "s.root" names turns start

-- The memory cluster where VAULT_CLUSTER names one node.
abbrev one_node : Cluster
one_node = record memory { getenv = λ name. "vault-0" }

-- The whole job in the memory cluster, and the programs that use Vault after it.
process_end : (Start.process memory turns start).0 ≡ ended 0
unfolding Start.process Start.init program split begin by_health begin_init run advance main_step
    worker_step persist_step spawned
process_end = refl

begin_store :
    (begin memory "sip" (name_of node_0 (vault_fqdns memory)) start).0
    ≡ returned (store "UNSEAL" "s.root")
unfolding begin by_health begin_init
begin_store = refl

abbrev operator : Manager.Process MemoryKube MemoryVault Unit
operator = record { world = (Start.process memory turns start).1; manager = tt; events = [] }

token_handed_over_example :
    Carries "s.root" (init memory operator.world).0
    × (Carries "s.root" (Certs.init memory framework operator).0
        × Carries "s.root" (Cas.init memory framework operator).0)
token_handed_over_example =
    token_handed_over memory "s.root" memory-KubeLaws "UNSEAL" framework turns start operator refl
      begin_store process_end refl

-- The memory cluster with a Vault that refuses the key.
abbrev refusing : Cluster
refusing = record memory { vault_unseal = λ node key v. (err (other "connection refused"), v) }

abbrev first_twice : List Node
first_twice = node_0 ∷ node_0 ∷ []

run-workers_only_example :
    Lost refusing "sip" "UNSEAL" "s.root" names start.kube first_twice
      (spawned refusing "sip" "UNSEAL" "s.root" names (storing_key creating) start)
      (run refusing "sip" "UNSEAL" "s.root" names
        (workers_only first_twice)
        (spawned refusing "sip" "UNSEAL" "s.root" names (storing_key creating) start))
run-workers_only_example =
    run-workers_only refusing "sip" "UNSEAL" "s.root" names first_twice (storing_key creating) start

refused_end :
    (run refusing "sip" "UNSEAL" "s.root" names
      (workers_only first_twice)
      (spawned refusing "sip" "UNSEAL" "s.root" names (storing_key creating) start)).status
    ≡ ended 1
unfolding run advance worker_step spawned
refused_end = refl

process-AtMost_example :
    initializations (Start.process memory turns start).1.trace
    ≤ 0 + allowed memory (memory.vault_read_health start.vault).0
process-AtMost_example = process-AtMost memory turns start
