-- ===== src/Operator/Manager.antt =====
-- The manager of controller-runtime, which is a parameter: what an operator asks of it, in order.
use service_identity_provide.Base.{String, Bool, List, ◌∷◌}
use service_identity_provide.Objects.{Result}
use service_identity_provide.Cluster.{Cluster, World, Outcome, Act, outcome_of, or_fatal}
use service_identity_provide.Cluster.Api.{Go}
use service_identity_provide.Operator.Options.{ManagerOptions}

pub data Event : Type 0 where
  -- `ctrl.NewManager`
  new_manager : ManagerOptions → Event
  -- `NewControllerManagedBy(mgr).For(kind).Owns(owned).Complete(r)`, where the reconciler `r` has a
  -- client of Vault with the token
  build_controller : (kind owned token : String) → Event
  -- `NewWebhookManagedBy(mgr).For(kind).Complete()`
  build_webhook : (kind : String) → Event
  -- `AddHealthzCheck` and `AddReadyzCheck` with `healthz.Ping`
  add_healthz_check add_readyz_check : (name : String) → Event
  -- `mgr.Start`, which returns when the manager stops
  start : Event

-- Its requests may change its state, also where they fail.
pub record Framework : Type 1 where
  pub State : Type 0
  pub request : Event → State → Result (Unit {0}) × State
  -- `utilruntime.Must(clientgoscheme.AddToScheme(scheme))`, and the same for the operator's types
  pub add_to_scheme : String → Result (Unit {0})
  -- whether `ctrl.GetConfigOrDie` returns
  pub has_config : Bool
  -- the flags of zap and of controller-runtime; a name that nobody declared ends the process
  pub other_flag : String → String → Outcome (Unit {0})

-- A process: the services, the manager, and what it was asked, newest first.
pub record Process (K V S : Type 0) : Type 0 where
  pub world : World K V
  pub manager : S
  pub events : List Event

module _ (c : Cluster) (x : Framework) where
  abbrev pub Op : Type 0 → Type 0
  Op A = Act (Process c.Kube c.Vault x.State) A

  abbrev pub in_world : {A : Type 0} → Go c A → Op A
  in_world m p = let (o, w) = m p.world in (o, record p { world = w })

  abbrev pub ask : Event → Op (Unit {0})
  ask e p =
      let (r, s) = x.request e p.manager in
      (outcome_of r, record p { manager = s; events = e ∷ p.events })

  -- A request with `if err != nil { setupLog.Error(...); os.Exit(1) }`.
  abbrev pub need : Event → Op (Unit {0})
  need e = or_fatal (ask e)
