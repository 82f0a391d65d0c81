-- ===== src/Operator/Cas.antt =====
-- operator/internal-client-ca/cmd/main.go, with `SetupWithManager`.
use service_identity_provide.Base.{String, List}
use service_identity_provide.Cluster.{Cluster, ◌>>=◌, lift}
use service_identity_provide.Operator.Options.{manager_options}
use service_identity_provide.Operator.Manager.{
  Event, new_manager, build_controller, Framework, Op, in_world, need,
}
use service_identity_provide.Operator.Start.{
  must, init_clients, parse_flags, need_config, finish_setup,
}

abbrev pub leader_election_id : String
leader_election_id = "644997c3.sec.com"

abbrev pub setup_with_manager : String → Event
setup_with_manager token = build_controller "InternalClientCA" "Secret" token

module _ (c : Cluster) (x : Framework) where
  unfoldable pub init : Op c x String
  unfolding init_clients
  init = lift (must (x.add_to_scheme "client-go")) >>= λ _.
      lift (must (x.add_to_scheme "sip.sec.com/v1alpha1")) >>= λ _. in_world c x (init_clients c)

  unfoldable pub build : String → Op c x (Unit {0})
  unfolding finish_setup
  build token = need c x (setup_with_manager token) >>= λ _. finish_setup c x

  unfoldable pub main : String → List (String × String) → Op c x (Unit {0})
  unfolding parse_flags build
  main token args = parse_flags c x args >>= λ flags. need_config c x >>= λ _.
      need c x (new_manager (manager_options leader_election_id flags)) >>= λ _. build token

  -- The process: `init`, then `main`.
  unfoldable pub program : List (String × String) → Op c x (Unit {0})
  unfolding init main
  program args = init >>= λ token. main token args
