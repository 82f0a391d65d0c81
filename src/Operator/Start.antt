-- ===== src/Operator/Start.antt =====
-- The parts of `init` and `main` that the two operators have in common.
use service_identity_provide.Base.{String, List}
use service_identity_provide.Objects.{Result, ok, err}
use service_identity_provide.Cluster.{Cluster, Outcome, returned, panicked, ◌>>=◌, lift, or_fatal}
use service_identity_provide.Cluster.Api.{Go}
use service_identity_provide.Startup.{connect, need_root_token, client_with_token, go_on_if}
use service_identity_provide.Operator.Flags.{Flags, default_flags, parse}
use service_identity_provide.Operator.Manager.{
  Framework, add_healthz_check, add_readyz_check, start, Op, need,
}

-- `utilruntime.Must`
abbrev pub must : Result (Unit {0}) → Outcome (Unit {0})
must (ok _) = returned tt
must (err e) = panicked

module _ (c : Cluster) where
  -- From the client of Kubernetes to the token of Vault's client.
  unfoldable pub init_clients : Go c String
  unfolding need_root_token client_with_token
  init_clients =
      or_fatal (connect c) >>= λ _. need_root_token c >>= λ token. client_with_token c token

  module _ (x : Framework) where
    -- The command line, and the configuration of the manager.
    unfoldable pub parse_flags : List (String × String) → Op c x Flags
    parse_flags args = lift (parse x.other_flag args default_flags)

    abbrev pub need_config : Op c x (Unit {0})
    need_config = lift (go_on_if x.has_config)

    -- `AddHealthzCheck`, `AddReadyzCheck` and `Start`
    unfoldable pub finish_setup : Op c x (Unit {0})
    finish_setup = need c x (add_healthz_check "healthz") >>= λ _.
        need c x (add_readyz_check "readyz") >>= λ _. need c x start
