-- ===== src/Operator/Offered.antt =====
-- The options of the manager as the command line gives them.
use service_identity_provide.Base.{
  String, Bool, true, false, Option, none, some, List, [], ◌∷◌, ◌≡◌, refl, sym,
}
use service_identity_provide.Cluster.{Outcome, returned}
use service_identity_provide.Tls.{TlsConfig}
use service_identity_provide.Operator.Flags.{
  Flags, default_flags, metrics_bind_address, health_probe_bind_address, leader_elect,
  metrics_secure, http2, parse_bool, parse,
}
use service_identity_provide.Operator.Options.{
  ManagerOptions, manager_options, metrics_options, tls_opts_unless, apply_all,
}
use service_identity_provide.Operator.Given.{last_value, Last, parse-Last}

-- A text that the command line gives, or its default.
abbrev pub text_given : String → Option String → String
text_given default (some value) = value
text_given default none = default

abbrev pub truth_of : Bool → Option Bool → Bool
truth_of default (some b) = b
truth_of default none = default

-- A boolean that the command line gives, or its default.
abbrev pub truth_given : Bool → Option String → Bool
truth_given default (some value) = truth_of default (parse_bool value)
truth_given default none = default

-- `http/1.1` alone, unless HTTP/2 is wanted: then the protocols are left as they are.
abbrev pub protocols : Bool → TlsConfig → List String
protocols true t = t.next_protos
protocols false t = "http/1.1" ∷ []

metrics_addr_lem :
    (o : Option String) (g : Flags)
    → Last metrics_bind_address default_flags o g
    → g.metrics_addr ≡ text_given "0" o
metrics_addr_lem none g h = h
metrics_addr_lem (some v) g h = h

probe_addr_lem :
    (o : Option String) (g : Flags)
    → Last health_probe_bind_address default_flags o g
    → g.probe_addr ≡ text_given ":8081" o
probe_addr_lem none g h = h
probe_addr_lem (some v) g h = h

leader_election_lem :
    (o : Option String) (g : Flags)
    → Last leader_elect default_flags o g
    → g.enable_leader_election ≡ truth_given false o
leader_election_lem none g h = h
leader_election_lem (some v) g h = rw h refl

secure_metrics_lem :
    (o : Option String) (g : Flags)
    → Last metrics_secure default_flags o g
    → g.secure_metrics ≡ truth_given true o
secure_metrics_lem none g h = h
secure_metrics_lem (some v) g h = rw h refl

http2_lem :
    (o : Option String) (g : Flags)
    → Last http2 default_flags o g
    → g.enable_http2 ≡ truth_given false o
http2_lem none g h = h
http2_lem (some v) g h = rw h refl

protocols_lem :
    (b : Bool) (t : TlsConfig) → (apply_all (tls_opts_unless b) t).next_protos ≡ protocols b t
protocols_lem true t = refl
protocols_lem false t = refl

module _ (args : List (String × String)) (o : ManagerOptions) where
  -- The options of a manager are those that the command line asks for.
  abbrev pub Offered : Type 0
  Offered =
      (o.metrics.bind_address ≡ text_given "0" (last_value "metrics-bind-address" args))
      × (o.health_probe_bind_address
          ≡ text_given ":8081" (last_value "health-probe-bind-address" args))
      × (o.leader_election ≡ truth_given false (last_value "leader-elect" args))
      × (o.metrics.secure_serving ≡ truth_given true (last_value "metrics-secure" args))
      × (o.metrics.authenticates ≡ truth_given true (last_value "metrics-secure" args))
      × ((t : TlsConfig)
          → (apply_all o.metrics.tls_opts t).next_protos
            ≡ protocols (truth_given false (last_value "enable-http2" args)) t)
      × ((t : TlsConfig)
          → (apply_all o.webhook_tls_opts t).next_protos
            ≡ protocols (truth_given false (last_value "enable-http2" args)) t)

-- Where the command line can be parsed, the manager has the addresses and the leader election that
-- it gives last, or their defaults; its metrics are served by HTTPS and to authorised users only,
-- unless the last metrics-secure is false; and the servers of the metrics and of the webhook offer
-- HTTP/1.1 alone, unless the last enable-http2 is true.
pub manager_options-Offered :
    (other_flag : String → String → Outcome (Unit {0})) (id : String)
    (args : List (String × String)) (g : Flags)
    → parse other_flag args default_flags ≡ returned g
    → Offered args (manager_options id g)
unfolding manager_options metrics_options
manager_options-Offered other_flag id args g h = (
  metrics_addr_lem _ g (parse-Last other_flag metrics_bind_address args default_flags g h),
  probe_addr_lem _ g (parse-Last other_flag health_probe_bind_address args default_flags g h),
  leader_election_lem _ g (parse-Last other_flag leader_elect args default_flags g h),
  secure_metrics_lem _ g (parse-Last other_flag metrics_secure args default_flags g h),
  secure_metrics_lem _ g (parse-Last other_flag metrics_secure args default_flags g h),
  λ t.
      rw
        (sym (
          http2_lem (last_value "enable-http2" args) g
            (parse-Last other_flag http2 args default_flags g h)))
        (protocols_lem g.enable_http2 t),
  λ t.
      rw
        (sym (
          http2_lem (last_value "enable-http2" args) g
            (parse-Last other_flag http2 args default_flags g h)))
        (protocols_lem g.enable_http2 t),
)
