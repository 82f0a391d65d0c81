-- ===== src/Operator/Options.antt =====
-- The options that `main` makes of the flags.
use service_identity_provide.Base.{String, Bool, true, false, List, [], ◌∷◌}
use service_identity_provide.Tls.{TlsConfig}
use service_identity_provide.Operator.Flags.{Flags}

-- `metricsserver.Options`; the filter is `filters.WithAuthenticationAndAuthorization`, or none.
pub record MetricsOptions : Type 0 where
  pub bind_address : String
  pub secure_serving : Bool
  pub tls_opts : List (TlsConfig → TlsConfig)
  pub authenticates : Bool

-- `ctrl.Options`, and the `webhook.Options` of the server in it.
pub record ManagerOptions : Type 0 where
  pub metrics : MetricsOptions
  pub webhook_tls_opts : List (TlsConfig → TlsConfig)
  pub health_probe_bind_address : String
  pub leader_election : Bool
  pub leader_election_id : String

abbrev pub disable_http2 : TlsConfig → TlsConfig
disable_http2 c = record c { next_protos = "http/1.1" ∷ [] }

-- `if !enableHTTP2 { tlsOpts = append(tlsOpts, disableHTTP2) }`
abbrev pub tls_opts_unless : Bool → List (TlsConfig → TlsConfig)
tls_opts_unless true = []
tls_opts_unless false = disable_http2 ∷ []

unfoldable pub metrics_options : Flags → MetricsOptions
metrics_options f = record {
  bind_address = f.metrics_addr;
  secure_serving = f.secure_metrics;
  tls_opts = tls_opts_unless f.enable_http2;
  authenticates = f.secure_metrics;
}

unfoldable pub manager_options : String → Flags → ManagerOptions
unfolding metrics_options
manager_options id f = record {
  metrics = metrics_options f;
  webhook_tls_opts = tls_opts_unless f.enable_http2;
  health_probe_bind_address = f.probe_addr;
  leader_election = f.enable_leader_election;
  leader_election_id = id;
}

-- What the framework does with the options of a server: each is applied, in order.
abbrev pub apply_all : List (TlsConfig → TlsConfig) → TlsConfig → TlsConfig
apply_all [] c = c
apply_all (opt ∷ rest) c = apply_all rest (opt c)
