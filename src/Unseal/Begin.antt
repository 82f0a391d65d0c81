-- ===== src/Unseal/Begin.antt =====
-- How the job begins: the client of the first node, its health, the first request that depends on
-- it; and the rest of `main` along a schedule.
use service_identity_provide.Base.{String, List, [], ◌∷◌, if◌then◌else◌}
use service_identity_provide.Base.Fields.{field}
use service_identity_provide.Cluster.{
  Cluster, World, Health, InitAnswer, Outcome, returned, failed, panicked, exited, ◌>>=◌, pure,
  lift, or_fatal, Status, ended, crashed,
}
use service_identity_provide.Cluster.Api.{Go, get_secret, read_health, initialize}
use service_identity_provide.Persist.{creating}
use service_identity_provide.Unseal.Process.{
  node_0, name_of, address, MainAt, storing_key, waiting, Thread, run, spawned,
}

-- What `main` decides before it starts a goroutine. `blocked` is a panic before that: the deferred
-- wait is for three workers that were never started, and the runtime of Go ends the process.
pub data Start : Type 0 where
  nothing_to_do : Start
  unseal_with : String → Start
  store : String → String → Start
  blocked : Start

module _ (c : Cluster) (namespace : String) where
  -- `keys_base64[0]`
  abbrev pub first_key : InitAnswer → List String → Start
  first_key answer [] = blocked
  first_key answer (key ∷ rest) = store key answer.root_token

  unfoldable pub begin_init : Go c Start
  begin_init = or_fatal (initialize c 1 1) >>= λ answer. pure (first_key answer answer.keys_base64)

  unfoldable pub begin_unseal : Go c Start
  unfolding field
  begin_unseal =
      or_fatal (get_secret c (record { namespace = namespace; name = "vault-unseal-key" })) >>= λ s.
      pure (unseal_with (field s.data_fields "key"))

  unfoldable pub by_health : Health → Go c Start
  unfolding begin_init begin_unseal
  by_health health =
      if health.initialized
      then if health.sealed then begin_unseal else pure nothing_to_do
      else begin_init

  -- `main`; without a client, whose error `init` drops, it panics.
  unfoldable pub begin : String → Go c Start
  unfolding by_health
  begin node =
      if c.accepts_address (address node)
      then (or_fatal (read_health c) >>= by_health)
      else lift panicked

  -- The rest of `main` along a schedule.
  abbrev pub from_spawn :
      List Thread
      → MainAt
      → String
      → String
      → List String
      → World c.Kube c.Vault
      → Status × World c.Kube c.Vault
  from_spawn schedule at key token names w =
      let p = run c namespace key token names schedule (spawned c namespace key token names at w) in
      (p.status, p.world)

  abbrev pub after_begin :
      List Thread
      → List String
      → Outcome Start
      → World c.Kube c.Vault
      → Status × World c.Kube c.Vault
  after_begin schedule names (returned nothing_to_do) w = (ended 0, w)
  after_begin schedule names (returned (unseal_with key)) w =
      from_spawn schedule waiting key "" names w
  after_begin schedule names (returned (store key token)) w =
      from_spawn schedule (storing_key creating) key token names w
  after_begin schedule names (returned blocked) w = (ended 2, w)
  after_begin schedule names (failed e) w = (ended 1, w)
  after_begin schedule names panicked w = (crashed, w)
  after_begin schedule names (exited n) w = (ended n, w)

  unfoldable pub program :
      List Thread → List String → World c.Kube c.Vault → Status × World c.Kube c.Vault
  unfolding begin spawned
  program schedule names w =
      let (o, w') = begin (name_of node_0 names) w in after_begin schedule names o w'
