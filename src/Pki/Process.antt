-- ===== src/Pki/Process.antt =====
-- `main` and the goroutine of `enablePKIRootCA` (vault/client-go/pki/main.go) as two threads. The
-- goroutine assigns the variable `err` of the function that started it, which goes on to use it.
-- A thread's step is one request with its assignment, or one read of the shared variable: each case
-- of the goroutine's `switch` reads it again. The parts that share nothing with the goroutine, as the whole setup of the intermediate CA, are one step.
use service_identity_provide.Base.{
  String, Bool, true, false, not, Option, none, some, List, [], ◌∷◌, if◌then◌else◌,
}
use service_identity_provide.Base.Fields.{Fields, assign}
use service_identity_provide.Base.Lists.{has_mount}
use service_identity_provide.Objects.{
  NamespacedName, Secret, Error, not_found, already_exists, invalid, Result, ok, err,
}
use service_identity_provide.Cluster.{
  Status, running, ended, crashed, status_of, or_fatal, Cluster, World, Outcome, returned, failed,
  panicked, exited, ◌>>=◌, pure,
}
use service_identity_provide.Cluster.Api.{
  Go, list_mounts, configure_urls, write_role, create_secret, get_secret, update_secret,
}
use service_identity_provide.Pki.Setup.{
  root_ca_path, root_ca_role, urls_request, root_role_request, disable_flag, begin_root,
  enable_pki_interm_ca,
}

-- Where the main thread is.
pub data MainAt : Type 0 where
  at_urls checking_urls at_role checking_role at_patch at_interm : MainAt

-- Where the goroutine is: its creation, the test of its error, the cases of the `switch`, the read
-- and the update of the Secret, and the test of that error; `at_update` holds the Secret that was read and given the certificate.
pub data TaskAt : Type 0 where
  at_create checking_create at_not_found at_already_exists at_invalid at_default at_get : TaskAt
  at_update : Secret → TaskAt
  checking_update finished : TaskAt

pub record Process (K V : Type 0) : Type 0 where
  pub world : World K V
  pub shared_err : Option Error
  pub main : MainAt
  pub task : TaskAt
  pub status : Status

-- The error that an assignment leaves.
abbrev pub error_in : {A : Type 0} → Outcome A → Option Error
error_in (failed e) = some e
error_in _ = none

abbrev pub is_not_found : Option Error → Bool
is_not_found (some not_found) = true
is_not_found _ = false

abbrev pub is_already_exists : Option Error → Bool
is_already_exists (some already_exists) = true
is_already_exists _ = false

abbrev pub is_invalid : Option Error → Bool
is_invalid (some invalid) = true
is_invalid _ = false

-- The Secret of the goroutine, in the namespace of its client.
abbrev pub root_secret : String → String → Secret
root_secret namespace cert = record {
  name = "sip-root-ca";
  namespace = namespace;
  data_fields = [];
  string_data = ("ca.pem", cert) ∷ [];
  secret_type = "Opaque";
  owner = none;
}

abbrev pub root_secret_key : String → NamespacedName
root_secret_key namespace = record { namespace = namespace; name = "sip-root-ca" }

-- `existed.Data["ca.pem"] = ...`: a Secret with no data, as after a failed read, has a nil map, and
-- the assignment panics.
abbrev pub set_cert : Fields → String → Secret → Option Secret
set_cert [] cert s = none
set_cert (entry ∷ rest) cert s =
    some (record s { data_fields = assign (entry ∷ rest) "ca.pem" cert })

unfoldable pub with_cert : String → Result Secret → Option Secret
with_cert cert (err e) = none
with_cert cert (ok s) = set_cert s.data_fields cert s

-- `main` from the test of the second mount.
unfoldable pub finish_main : (c : Cluster) → String → List String → Go c (Unit {0})
unfolding enable_pki_interm_ca has_mount
finish_main c token mounts =
    if not (has_mount "sip-interm-ca/" mounts) then enable_pki_interm_ca c token else pure tt

module _ (c : Cluster) (token namespace : String) (mounts : List String) (cert : String) where
  abbrev pub State : Type 0
  State = Process c.Kube c.Vault

  -- A request of the main thread, whose error goes into the shared variable.
  abbrev pub main_request : Go c (Unit {0}) → MainAt → State → State
  main_request m next p =
      let (o, w) = m p.world in record p { world = w; shared_err = error_in o; main = next }

  -- `if err != nil { log.Fatal(err) }`
  abbrev pub main_check : MainAt → State → State
  main_check next p = elim p.shared_err [
    | none ↦ record p { main = next }
    | some e ↦ record p { status = ended 1 }
  ]

  unfoldable pub main_step : MainAt → State → State
  unfolding disable_flag finish_main
  main_step at_urls p =
      main_request (configure_urls c (urls_request root_ca_path) root_ca_path) checking_urls p
  main_step checking_urls p = main_check at_role p
  main_step at_role p =
      main_request (write_role c root_ca_role root_role_request root_ca_path) checking_role p
  main_step checking_role p = main_check at_patch p
  main_step at_patch p =
      let (o, w) = disable_flag c token root_ca_path root_ca_role p.world in
      record p { world = w; main = at_interm }
  main_step at_interm p =
      let (o, w) = finish_main c token mounts p.world in
      record p { world = w; status = status_of o }

  abbrev pub task_request : Go c (Unit {0}) → TaskAt → State → State
  task_request m next p =
      let (o, w) = m p.world in record p { world = w; shared_err = error_in o; task = next }

  -- `if err != nil` before the `switch`.
  abbrev pub task_test : Option Error → State → State
  task_test none p = record p { task = finished }
  task_test (some e) p = record p { task = at_not_found }

  -- A case of the `switch`, which reads the variable as it is by then; the default case ends the
  -- process whatever it is, `nil` included.
  abbrev pub task_switch : TaskAt → State → State
  task_switch at_not_found p =
      if is_not_found p.shared_err
      then record p { status = ended 1 }
      else record p { task = at_already_exists }
  task_switch at_already_exists p =
      if is_already_exists p.shared_err
      then record p { task = at_get }
      else record p { task = at_invalid }
  task_switch at_invalid p =
      if is_invalid p.shared_err
      then record p { status = ended 1 }
      else record p { task = at_default }
  task_switch _ p = record p { status = ended 1 }

  abbrev pub task_updating : Option Secret → State → State
  task_updating none p = record p { status = crashed }
  task_updating (some s) p = record p { task = at_update s }

  unfoldable pub task_step : TaskAt → State → State
  unfolding with_cert
  task_step at_create p =
      task_request (create_secret c (root_secret namespace cert)) checking_create p
  task_step checking_create p = task_test p.shared_err p
  task_step at_not_found p = task_switch at_not_found p
  task_step at_already_exists p = task_switch at_already_exists p
  task_step at_invalid p = task_switch at_invalid p
  task_step at_default p = task_switch at_default p
  task_step at_get p =
      let (r, k) = c.kube_get_secret (root_secret_key namespace) p.world.kube in
      task_updating (with_cert cert r)
        (record p { world = (get_secret c (root_secret_key namespace) p.world).1 })
  task_step (at_update s) p = task_request (update_secret c s) checking_update p
  task_step checking_update p = elim p.shared_err [
    | none ↦ record p { task = finished }
    | some e ↦ record p { status = ended 1 }
  ]
  task_step finished p = p

  -- One step of a thread, `true` for the main one. A process that has ended does nothing.
  unfoldable pub advance : Status → Bool → State → State
  unfolding main_step task_step
  advance running true p = main_step p.main p
  advance running false p = task_step p.task p
  advance (ended n) thread p = p
  advance crashed thread p = p

  -- The steps of a schedule, one after another.
  unfoldable pub run : List Bool → State → State
  unfolding advance
  run [] p = p
  run (thread ∷ schedule) p = run schedule (advance p.status thread p)

  -- The process right after the goroutine was started.
  abbrev pub spawned : World c.Kube c.Vault → State
  spawned w = record {
    world = w;
    shared_err = none;
    main = at_urls;
    task = at_create;
    status = running;
  }

-- `main` up to the start of the goroutine: the listed mounts, and the certificate of a root that
-- was made.
module _ (c : Cluster) (token namespace : String) where
  abbrev pub root_if_missing : List String → Bool → Go c (List String × Option String)
  root_if_missing mounts true = pure (mounts, none)
  root_if_missing mounts false = begin_root c token >>= λ cert. pure (mounts, some cert)

  unfoldable pub before_task : Go c (List String × Option String)
  unfolding has_mount begin_root
  before_task = or_fatal (list_mounts c) >>= λ mounts.
      root_if_missing mounts (has_mount "sip-root-ca/" mounts)

  -- The rest of `main` along a schedule; with no goroutine the schedule does not matter.
  abbrev pub after_start :
      List Bool
      → Outcome (List String × Option String)
      → World c.Kube c.Vault
      → Status × World c.Kube c.Vault
  after_start schedule (returned (mounts, none)) w =
      let (o, w') = finish_main c token mounts w in (status_of o, w')
  after_start schedule (returned (mounts, some cert)) w =
      let p =
        run c token namespace mounts cert schedule (spawned c token namespace mounts cert w) in
      (p.status, p.world)
  after_start schedule (failed e) w = (ended 1, w)
  after_start schedule panicked w = (crashed, w)
  after_start schedule (exited n) w = (ended n, w)

  unfoldable pub program : List Bool → World c.Kube c.Vault → Status × World c.Kube c.Vault
  unfolding before_task
  program schedule w = let (o, w') = before_task w in after_start schedule o w'
