-- ===== src/Examples/Operator.antt =====
-- The entry points of the operators on concrete command lines.
use service_identity_provide.Base.{
  String, Bool, true, false, none, some, List, [], ◌∷◌, ◌≡◌, refl, if◌then◌else◌,
}
use service_identity_provide.Base.Fields.{field, field?}
use service_identity_provide.Objects.{other, ok, err}
use service_identity_provide.Cluster.{returned, exited}
use service_identity_provide.Cluster.Laws.{key_eq}
use service_identity_provide.Cluster.Memory.{MemoryKube, MemoryVault, memory}
use service_identity_provide.Operator.Flags.{Flags, default_flags, parse, parse_bool, set_flag}
use service_identity_provide.Operator.Options.{manager_options}
use service_identity_provide.Operator.Manager.{Event, add_healthz_check, Framework, Process}
use service_identity_provide.Operator.Start.{init_clients, parse_flags, finish_setup}
use service_identity_provide.Startup.{need_root_token, client_with_token}
use service_identity_provide.Operator.Certs
use service_identity_provide.Operator.Cas
use service_identity_provide.Operator.Offered.{Offered, manager_options-Offered}
use service_identity_provide.Examples.Cas.{token_secret}

-- A manager that grants all but the checks of its health.
abbrev refuses_checks : Event → Bool
refuses_checks (add_healthz_check name) = true
refuses_checks _ = false

abbrev pub framework : Framework
framework = record {
  State = Unit;
  request = λ e s. (if refuses_checks e then err (other "taken") else ok tt, s);
  add_to_scheme = λ group. ok tt;
  has_config = true;
  other_flag = λ name value. exited 2;
}

abbrev process : Process MemoryKube MemoryVault Unit
process = record {
  world = record {
    kube = record {
      certificates = λ k. none;
      client_cas = λ k. none;
      secrets = λ k.
          if key_eq k (record { namespace = "sip"; name = "vault-root-token" })
          then some token_secret
          else none;
      unreadable = false;
      csr = none;
    };
    vault = record { mounts = []; broken = false };
    trace = [];
  };
  manager = tt;
  events = [];
}

abbrev args : List (String × String)
args = ("metrics-bind-address", ":8443") ∷ ("enable-http2", "T") ∷ ("enable-http2", "false") ∷ []

abbrev flags : Flags
flags = record default_flags { metrics_addr = ":8443" }

parsed_flags : parse framework.other_flag args default_flags ≡ returned flags
unfolding parse set_flag parse_bool
parsed_flags = refl

-- Without a parse of the flags nothing is asked.
unknown_flag : parse framework.other_flag (("http2", "true") ∷ []) default_flags ≡ exited 2
unfolding parse
unknown_flag = refl

manager_options-Offered_example : Offered args (manager_options Certs.leader_election_id flags)
manager_options-Offered_example =
    manager_options-Offered framework.other_flag Certs.leader_election_id args flags parsed_flags

certs_init : (Certs.init memory framework process).0 ≡ returned "s.root"
unfolding Certs.init init_clients need_root_token client_with_token field field?
certs_init = refl

-- The first check is refused after the manager, the controller and the webhook were granted.
certs_events :
    let (o, p) = Certs.program memory framework args process in
    (o ≡ exited 1)
    × (p.events
        ≡ add_healthz_check "healthz"
          ∷ Certs.setup_webhook_with_manager
          ∷ Certs.setup_with_manager "s.root"
          ∷ Event.new_manager (manager_options Certs.leader_election_id flags)
          ∷ [])
unfolding Certs.program Certs.init Certs.main Certs.build init_clients need_root_token
    client_with_token parse_flags finish_setup parse set_flag parse_bool field field?
certs_events = (refl, refl)
