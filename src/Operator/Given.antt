-- ===== src/Operator/Given.antt =====
-- What the flags of an operator are after its command line was parsed.
use service_identity_provide.Base.{
  String, false, Option, none, some, List, [], ◌∷◌, ◌≡◌, refl, arith, if◌then◌else◌, str_eq, eq_iff,
}
use service_identity_provide.Cluster.{Outcome, returned, failed, panicked, exited, and_then}
use service_identity_provide.Operator.Flags.{
  Flags, Flag, metrics_bind_address, health_probe_bind_address, leader_elect, metrics_secure, http2,
  flag_name, first_named, declared, flag_named, parse_bool, set_flag, set_named, parse,
}

-- The last value that the command line gives for a name.
unfoldable pub last_value : String → List (String × String) → Option String
last_value name [] = none
last_value name ((n, value) ∷ rest) = elim (last_value name rest) [
  | some later ↦ some later
  | none ↦ if str_eq n name then some value else none
]

-- A flag has a value.
abbrev pub Shows : Flag → Flags → String → Type 0
Shows metrics_bind_address f value = f.metrics_addr ≡ value
Shows health_probe_bind_address f value = f.probe_addr ≡ value
Shows leader_elect f value = parse_bool value ≡ some f.enable_leader_election
Shows metrics_secure f value = parse_bool value ≡ some f.secure_metrics
Shows http2 f value = parse_bool value ≡ some f.enable_http2

-- A flag is the same in both.
abbrev pub Same : Flag → Flags → Flags → Type 0
Same metrics_bind_address f g = g.metrics_addr ≡ f.metrics_addr
Same health_probe_bind_address f g = g.probe_addr ≡ f.probe_addr
Same leader_elect f g = g.enable_leader_election ≡ f.enable_leader_election
Same metrics_secure f g = g.secure_metrics ≡ f.secure_metrics
Same http2 f g = g.enable_http2 ≡ f.enable_http2

-- A flag has the last of its values, or the one that it had.
abbrev pub Last : Flag → Flags → Option String → Flags → Type 0
Last flag f none g = Same flag f g
Last flag f (some value) g = Shows flag g value

Last-later :
    (flag : Flag) (f f' : Flags) (now later : Option String) (g : Flags)
    → Last flag f now f'
    → Last flag f' later g
    → Last flag f (elim later [ some v ↦ some v | none ↦ now ]) g
Last-later metrics_bind_address f f' now later g h k = ground arith
Last-later health_probe_bind_address f f' now later g h k = ground arith
Last-later leader_elect f f' now later g h k = ground arith
Last-later metrics_secure f f' now later g h k = ground arith
Last-later http2 f f' now later g h k = ground arith

abbrev pub given_now : String → String → String → Option String
given_now n name value = if str_eq n name then some value else none

Same-eq : (flag : Flag) (f g : Flags) → Outcome.returned f ≡ returned g → Same flag f g
Same-eq metrics_bind_address f g h = cc
Same-eq health_probe_bind_address f g h = cc
Same-eq leader_elect f g h = cc
Same-eq metrics_secure f g h = cc
Same-eq http2 f g h = cc

-- One flag that is set.
set_flag-Last :
    (flag set : Flag) (value : String) (f f' : Flags)
    → set_flag set value f ≡ returned f'
    → Last flag f (given_now (flag_name set) (flag_name flag) value) f'
unfolding set_flag
set_flag-Last metrics_bind_address metrics_bind_address value f f' h = ground arith
set_flag-Last metrics_bind_address health_probe_bind_address value f f' h = ground arith
set_flag-Last metrics_bind_address leader_elect value f f' h = ground arith
set_flag-Last metrics_bind_address metrics_secure value f f' h = ground arith
set_flag-Last metrics_bind_address http2 value f f' h = ground arith
set_flag-Last health_probe_bind_address metrics_bind_address value f f' h = ground arith
set_flag-Last health_probe_bind_address health_probe_bind_address value f f' h = ground arith
set_flag-Last health_probe_bind_address leader_elect value f f' h = ground arith
set_flag-Last health_probe_bind_address metrics_secure value f f' h = ground arith
set_flag-Last health_probe_bind_address http2 value f f' h = ground arith
set_flag-Last leader_elect metrics_bind_address value f f' h = ground arith
set_flag-Last leader_elect health_probe_bind_address value f f' h = ground arith
set_flag-Last leader_elect leader_elect value f f' h = ground arith
set_flag-Last leader_elect metrics_secure value f f' h = ground arith
set_flag-Last leader_elect http2 value f f' h = ground arith
set_flag-Last metrics_secure metrics_bind_address value f f' h = ground arith
set_flag-Last metrics_secure health_probe_bind_address value f f' h = ground arith
set_flag-Last metrics_secure leader_elect value f f' h = ground arith
set_flag-Last metrics_secure metrics_secure value f f' h = ground arith
set_flag-Last metrics_secure http2 value f f' h = ground arith
set_flag-Last http2 metrics_bind_address value f f' h = ground arith
set_flag-Last http2 health_probe_bind_address value f f' h = ground arith
set_flag-Last http2 leader_elect value f f' h = ground arith
set_flag-Last http2 metrics_secure value f f' h = ground arith
set_flag-Last http2 http2 value f f' h = ground arith

-- A name that `flag_named` finds is the name of that flag.
flag_named-name :
    (flags : List Flag) (name : String) (flag : Flag)
    → first_named flags name ≡ some flag
    → name ≡ flag_name flag
flag_named-name [] name flag h = cc
flag_named-name (x ∷ rest) name flag h =
    ground (arith, eq_iff name (flag_name x), flag_named-name rest name flag)

flag_named-none :
    (flag : Flag) (name : String) → flag_named name ≡ none → str_eq name (flag_name flag) ≡ false
flag_named-none metrics_bind_address name h = ground arith
flag_named-none health_probe_bind_address name h = ground arith
flag_named-none leader_elect name h = ground arith
flag_named-none metrics_secure name h = ground arith
flag_named-none http2 name h = ground arith

module _ (other_flag : String → String → Outcome (Unit {0})) where
  other-Last :
      (flag : Flag) (name value : String) (f f' : Flags) (o : Outcome (Unit {0}))
      → str_eq name (flag_name flag) ≡ false
      → and_then o (λ _. returned f) ≡ returned f'
      → Last flag f (given_now name (flag_name flag) value) f'
  other-Last flag name value f f' (returned _) differ h = rw differ (Same-eq flag f f' h)
  other-Last flag name value f f' (failed e) differ h = cc
  other-Last flag name value f f' panicked differ h = cc
  other-Last flag name value f f' (exited n) differ h = cc

  set_named-Last :
      (flag : Flag) (name value : String) (f f' : Flags) (found : Option Flag)
      → flag_named name ≡ found
      → set_named other_flag found name value f ≡ returned f'
      → Last flag f (given_now name (flag_name flag) value) f'
  set_named-Last flag name value f f' none e h =
      other-Last flag name value f f' (other_flag name value) (flag_named-none flag name e) h
  set_named-Last flag name value f f' (some set) e h =
      rw (flag_named-name declared name set e) (set_flag-Last flag set value f f' h)

  -- Wherever the command line can be parsed, each flag of the operator has the last value that is
  -- given for it, a boolean one what `strconv.ParseBool` makes of that value, and a flag that is
  -- not given has its default.
  pub parse-Last :
      (flag : Flag) (args : List (String × String)) (f g : Flags)
      → parse other_flag args f ≡ returned g
      → Last flag f (last_value (flag_name flag) args) g
  unfolding parse last_value
  parse-Last flag [] f g h = Same-eq flag f g h
  parse-Last flag ((name, value) ∷ rest) f g h =
      step (set_named other_flag (flag_named name) name value f) refl h
        (λ f'. parse-Last flag rest f' g)
    where
      step :
          (o : Outcome Flags)
          → set_named other_flag (flag_named name) name value f ≡ o
          → and_then o (λ f'. parse other_flag rest f') ≡ returned g
          → ((f' : Flags)
              → parse other_flag rest f' ≡ returned g
              → Last flag f' (last_value (flag_name flag) rest) g)
          → Last flag f (last_value (flag_name flag) ((name, value) ∷ rest)) g
      step (returned f') e h later =
          Last-later flag f f' (given_now name (flag_name flag) value)
            (last_value (flag_name flag) rest) g
            (set_named-Last flag name value f f' (flag_named name) refl e) (later f' h)
      step (failed x) e h later = cc
      step panicked e h later = cc
      step (exited n) e h later = cc
