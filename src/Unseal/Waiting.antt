-- ===== src/Unseal/Waiting.antt =====
-- The process ends with status 0 only where every worker is at its end.
use service_identity_provide.Base.{
  String, false, Option, none, some, List, [], ◌∷◌, ◌≡◌, ◌⊎◌, inl, inr, refl, arith,
}
use service_identity_provide.Cluster.{Cluster, World, ended}
use service_identity_provide.Unseal.Process.{
  Node, node_0, node_1, node_2, WorkerAt, absent, starting, asking, unsealed, no_client, Workers,
  worker, name_at, name_of, started, address, MainAt, Process, Thread, run, spawned,
}
use service_identity_provide.Unseal.Answered.{Answered, run-Answered}
use service_identity_provide.Unseal.Counting.{left, unfinished, ByClient, Counts, advance-Counts}

module _ (c : Cluster) (namespace key token : String) (names : List String) where
  abbrev pub State : Type 0
  State = Process c.Kube c.Vault

  run-Counts :
      (schedule : List Thread) (p : State)
      → Counts c namespace key token names p
      → Counts c namespace key token names (run c namespace key token names schedule p)
  unfolding run
  run-Counts [] p k = k
  run-Counts (thread ∷ schedule) p k =
      run-Counts schedule _ (advance-Counts c namespace key token names p.status thread p refl k)

  started-left : (o : Option String) → left (started o) ≡ 1
  started-left none = refl
  started-left (some _) = refl

  started-client : (o : Option String) → started o ≡ no_client → ⊥
  started-client none h = cc
  started-client (some _) h = cc

  pub spawned-Counts :
      (at : MainAt) (w : World c.Kube c.Vault)
      → Counts c namespace key token names (spawned c namespace key token names at w)
  unfolding spawned
  spawned-Counts at w = (
    rw
        (
          started-left (name_at node_0 names),
          started-left (name_at node_1 names),
          started-left (name_at node_2 names),
        )
        refl,
    (first, λ h. cc),
  )
    where
      first :
          (n : Node)
          → ByClient c namespace key token names n
              (worker n (spawned c namespace key token names at w).workers)
      first node_0 h = absurd (started-client _ h)
      first node_1 h = absurd (started-client _ h)
      first node_2 h = absurd (started-client _ h)

  -- A worker that is at its end after a schedule: in one of the steps it asked with the key and
  -- Vault answered without an error, or it has no client and none can be made for its node.
  abbrev pub Finished : Node → List Thread → State → WorkerAt → Type 0
  Finished n schedule p at =
      ((at ≡ unsealed) × Answered c namespace key token names n schedule p)
      ⊎ ((at ≡ no_client) × (c.accepts_address (address (name_of n names)) ≡ false))

  left-Finished :
      (n : Node) (schedule : List Thread) (p : State) (at : WorkerAt)
      → left at ≡ 0
      → ByClient c namespace key token names n at
      → (at ≡ unsealed → Answered c namespace key token names n schedule p)
      → Finished n schedule p at
  left-Finished n schedule p absent h by asked = absurd (omega arith)
  left-Finished n schedule p starting h by asked = absurd (omega arith)
  left-Finished n schedule p asking h by asked = absurd (omega arith)
  left-Finished n schedule p unsealed h by asked = inl (refl, asked refl)
  left-Finished n schedule p no_client h by asked = inr (refl, by refl)

  started_not_unsealed : (o : Option String) → started o ≡ unsealed → ⊥
  started_not_unsealed none h = cc
  started_not_unsealed (some name) h = cc

  spawned_not_unsealed :
      (n : Node) (at : MainAt) (w : World c.Kube c.Vault)
      → worker n (spawned c namespace key token names at w).workers ≡ unsealed
      → ⊥
  unfolding spawned
  spawned_not_unsealed node_0 at w h = started_not_unsealed (name_at node_0 names) h
  spawned_not_unsealed node_1 at w h = started_not_unsealed (name_at node_1 names) h
  spawned_not_unsealed node_2 at w h = started_not_unsealed (name_at node_2 names) h

  all_left : (n : Node) (ws : Workers) → unfinished ws ≡ 0 → left (worker n ws) ≡ 0
  all_left node_0 ws h = omega arith
  all_left node_1 ws h = omega arith
  all_left node_2 ws h = omega arith

  -- On every schedule, if the process ends with status 0, then each of the three workers is at its
  -- end: in one of the steps it asked with the key and Vault answered without an error, or it has no
  -- client, and none can be made for its node.
  pub run-Finished :
      (at : MainAt) (schedule : List Thread) (w : World c.Kube c.Vault) (n : Node)
      → let p =
          run c namespace key token names schedule (spawned c namespace key token names at w) in
        p.status ≡ ended 0
        → Finished n schedule (spawned c namespace key token names at w) (worker n p.workers)
  run-Finished at schedule w n over =
      let p = run c namespace key token names schedule (spawned c namespace key token names at w) in
      let k : Counts c namespace key token names p = run-Counts schedule _ (spawned-Counts at w) in
      left-Finished n schedule (spawned c namespace key token names at w) (worker n p.workers)
        (all_left n p.workers (k.1.1 over)) (k.1.0 n)
        (run-Answered c namespace key token names n schedule
          (spawned c namespace key token names at w) (spawned_not_unsealed n at w))
