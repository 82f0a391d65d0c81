-- ===== src/Operator/Wiring.antt =====
-- What an operator asks of its manager, however the manager answers.
use service_identity_provide.Base.{String, Bool, true, false, List, ◌∷◌, str_eq}
use service_identity_provide.Cluster.{Cluster}
use service_identity_provide.Operator.Flags.{Flags}
use service_identity_provide.Operator.Options.{manager_options}
use service_identity_provide.Operator.Manager.{Event, new_manager, Framework, Process}
use service_identity_provide.Operator.Certs
use service_identity_provide.Operator.Cas
use service_identity_provide.Operator.Rules.{end_plan}

-- The controller of a certificate, then its webhook unless that is left out.
abbrev controller_plan : Bool → String → List Event
controller_plan true token = Certs.setup_with_manager token ∷ end_plan
controller_plan false token =
    Certs.setup_with_manager token ∷ Certs.setup_webhook_with_manager ∷ end_plan

-- The plans of the two operators, with a manager that has the options of the flags.
abbrev pub certs_plan : Bool → Flags → String → List Event
certs_plan without f token =
    new_manager (manager_options Certs.leader_election_id f) ∷ controller_plan without token

abbrev pub cas_plan : Flags → String → List Event
cas_plan f token =
    new_manager (manager_options Cas.leader_election_id f) ∷ Cas.setup_with_manager token ∷ end_plan

module _ (c : Cluster) (x : Framework) where
  abbrev pub State : Type 0
  State = Process c.Kube c.Vault x.State

  -- The plan in the environment of the pod.
  abbrev pub certs_plan_here : Flags → String → List Event
  certs_plan_here = certs_plan (str_eq (c.getenv "ENABLE_WEBHOOKS") "false")
