-- ===== src/Operator/Flags.antt =====
-- The command line of an operator. Go's package flag gives each flag's name and its value, in
-- order; a boolean flag that stands alone has the value "true". The flags that zap and
-- controller-runtime declare beside those of the operator are a parameter.
use service_identity_provide.Base.{
  String, Bool, true, false, ◌||◌, Option, none, some, List, [], ◌∷◌, if◌then◌else◌, str_eq,
}
use service_identity_provide.Cluster.{Outcome, returned, exited, and_then}

pub record Flags : Type 0 where
  pub metrics_addr : String
  pub probe_addr : String
  pub enable_leader_election : Bool
  pub secure_metrics : Bool
  pub enable_http2 : Bool

abbrev pub default_flags : Flags
default_flags = record {
  metrics_addr = "0";
  probe_addr = ":8081";
  enable_leader_election = false;
  secure_metrics = true;
  enable_http2 = false;
}

-- The flags that `main` declares.
pub data Flag : Type 0 where
  metrics_bind_address health_probe_bind_address leader_elect metrics_secure http2 : Flag

abbrev pub flag_name : Flag → String
flag_name metrics_bind_address = "metrics-bind-address"
flag_name health_probe_bind_address = "health-probe-bind-address"
flag_name leader_elect = "leader-elect"
flag_name metrics_secure = "metrics-secure"
flag_name http2 = "enable-http2"

abbrev pub first_named : List Flag → String → Option Flag
first_named [] name = none
first_named (flag ∷ rest) name =
    let later = first_named rest name in if str_eq name (flag_name flag) then some flag else later

abbrev pub declared : List Flag
declared =
    metrics_bind_address ∷ health_probe_bind_address ∷ leader_elect ∷ metrics_secure ∷ http2 ∷ []

abbrev pub flag_named : String → Option Flag
flag_named = first_named declared

abbrev pub one_of : List String → String → Bool
one_of [] text = false
one_of (x ∷ rest) text = str_eq x text || one_of rest text

-- `strconv.ParseBool`
unfoldable pub parse_bool : String → Option Bool
parse_bool text =
    if one_of ("1" ∷ "t" ∷ "T" ∷ "true" ∷ "TRUE" ∷ "True" ∷ []) text
    then some true
    else if one_of ("0" ∷ "f" ∷ "F" ∷ "false" ∷ "FALSE" ∷ "False" ∷ []) text
    then some false
    else none

-- A boolean that is set, or the exit of `flag.Parse` with status 2.
abbrev pub set_bool : Option Bool → (Bool → Flags) → Outcome Flags
set_bool (some b) set = returned (set b)
set_bool none set = exited 2

unfoldable pub set_flag : Flag → String → Flags → Outcome Flags
set_flag metrics_bind_address value f = returned (record f { metrics_addr = value })
set_flag health_probe_bind_address value f = returned (record f { probe_addr = value })
set_flag leader_elect value f =
    set_bool (parse_bool value) (λ b. record f { enable_leader_election = b })
set_flag metrics_secure value f = set_bool (parse_bool value) (λ b. record f { secure_metrics = b })
set_flag http2 value f = set_bool (parse_bool value) (λ b. record f { enable_http2 = b })

module _ (other_flag : String → String → Outcome (Unit {0})) where
  abbrev pub set_named : Option Flag → String → String → Flags → Outcome Flags
  set_named (some flag) name value f = set_flag flag value f
  set_named none name value f = and_then (other_flag name value) (λ _. returned f)

  -- `flag.Parse`
  unfoldable pub parse : List (String × String) → Flags → Outcome Flags
  parse [] f = returned f
  parse ((name, value) ∷ rest) f =
      and_then (set_named (flag_named name) name value f) (λ f'. parse rest f')
