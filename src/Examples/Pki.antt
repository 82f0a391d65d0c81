-- ===== src/Examples/Pki.antt =====
-- The job that sets the two CAs up, on concrete schedules.
use service_identity_provide.Base.{arith, String, ◌≡◌, ◌≢◌, refl, true, false, none, List, [], ◌∷◌}
use service_identity_provide.Base.Fields.{assign, merge, field, field?}
use service_identity_provide.Base.Lists.{has_mount}
use service_identity_provide.Objects.{other, err}
use service_identity_provide.Cluster.{running, ended, Cluster, World, returned, exited}
use service_identity_provide.Cluster.Laws.{Secrets, put}
use service_identity_provide.Cluster.Memory.{MemoryKube, MemoryVault, memory}
use service_identity_provide.Cluster.MemoryLaws.{memory-KubeLaws}
use service_identity_provide.Startup.{client_with_token}
use service_identity_provide.Pki.Start.{init, process}
use service_identity_provide.Pki.Whole.{RootOnly, process-RootOnly}
use service_identity_provide.Examples.Cas.{token_secret}
use service_identity_provide.Pki.Setup.{read_root_token, disable_flag, install_interm}
use service_identity_provide.Pki.Process.{
  finished, root_secret, root_secret_key, main_step, task_step, advance, run, spawned, with_cert,
  finish_main,
}
use service_identity_provide.Pki.MainThread.{main_only, run-main_alone}
use service_identity_provide.Pki.Goroutine.{Held, Differs, run-Differs}
use service_identity_provide.Pki.Written.{task_only, run-task_alone}
use service_identity_provide.Pki.Race.{Loses, Skips, run-urls_error, run-create_error}
use service_identity_provide.Pki.Program.{Installed, install_interm-Installed}

abbrev start : Secrets → List String → World MemoryKube MemoryVault
start secrets mounts = record {
  kube = record {
    certificates = λ k. none;
    client_cas = λ k. none;
    secrets = secrets;
    unreadable = false;
    csr = none;
  };
  vault = record { mounts = mounts; broken = false };
  trace = [];
}

abbrev no_secrets : Secrets
no_secrets k = none

abbrev interm_listed : List String
interm_listed = "sip-interm-ca/" ∷ []

abbrev both_listed : List String
both_listed = "sip-interm-ca/" ∷ "sip-root-ca/" ∷ []

abbrev empty : World MemoryKube MemoryVault
empty = start no_secrets interm_listed

-- A Secret of an earlier root.
abbrev earlier : Secrets
earlier = put (root_secret "sip" "OLD") no_secrets

-- The memory cluster with a Vault that refuses URLs.
abbrev refusing : Cluster
refusing = record memory { vault_configure_urls = λ r path v. (err (other "permission denied"), v) }

run-Differs_example : Differs "sip" "ROOT" (memory-KubeLaws.secrets empty.kube) (
    memory-KubeLaws.secrets
      (run memory "s.root" "sip" interm_listed "ROOT"
        (true ∷ false ∷ true ∷ false ∷ [])
        (spawned memory "s.root" "sip" interm_listed "ROOT" empty)).world.kube)
run-Differs_example =
    run-Differs memory memory-KubeLaws "s.root" "sip" interm_listed "ROOT"
      (true ∷ false ∷ true ∷ false ∷ []) empty

run-main_alone_example :
    (run memory "s.root" "sip" interm_listed "ROOT"
        (false ∷ main_only 6)
        (spawned memory "s.root" "sip" interm_listed "ROOT" empty)).status
      ≢ running
    × ((run memory "s.root" "sip" interm_listed "ROOT"
          (main_only 6)
          (spawned memory "s.root" "sip" interm_listed "ROOT" empty)).world.kube
        ≡ empty.kube)
run-main_alone_example =
    run-main_alone memory "s.root" "sip" interm_listed "ROOT" (false ∷ main_only 6) empty
      (omega arith)

-- It ends with status 0 here.
main_alone_status :
    (run memory "s.root" "sip" interm_listed "ROOT"
      (main_only 6)
      (spawned memory "s.root" "sip" interm_listed "ROOT" empty)).status
    ≡ ended 0
unfolding run advance main_step disable_flag finish_main has_mount
main_alone_status = refl

still_running :
    (run memory "s.root" "sip" interm_listed "ROOT"
      (task_only 7)
      (spawned memory "s.root" "sip" interm_listed "ROOT" (start earlier interm_listed))).status
    ≡ running
unfolding run advance task_step with_cert merge assign
still_running = refl

run-task_alone_example :
    let p =
      run memory "s.root" "sip" interm_listed "ROOT"
        (task_only 7)
        (spawned memory "s.root" "sip" interm_listed "ROOT" (start earlier interm_listed)) in
    (p.task ≡ finished)
    × Held "sip" "ROOT" (memory-KubeLaws.secrets p.world.kube (root_secret_key "sip"))
run-task_alone_example =
    run-task_alone memory memory-KubeLaws "s.root" "sip" interm_listed "ROOT"
      (start earlier interm_listed) still_running

run-urls_error_example : Loses refusing "s.root" "sip" interm_listed "ROOT" empty
run-urls_error_example =
    run-urls_error refusing "s.root" "sip" interm_listed "ROOT" empty (other "permission denied")
      refl refl

run-create_error_example :
    Skips memory "s.root" "sip" interm_listed "ROOT" (start earlier interm_listed)
run-create_error_example =
    run-create_error memory "s.root" "sip" interm_listed "ROOT" (start earlier interm_listed) refl
      refl

-- Without the Secret of the root token the client has no token to take.
without_token : (init memory empty).0 ≡ exited 1
unfolding init read_root_token client_with_token
without_token = refl

-- A cluster that holds the root token.
abbrev ready : World MemoryKube MemoryVault
ready = start (put token_secret no_secrets) interm_listed

with_token : (init memory ready).0 ≡ returned "s.root"
unfolding init read_root_token client_with_token field field? merge
with_token = refl

process-RootOnly_example :
    RootOnly memory memory-KubeLaws
      (init memory ready).0
      (init memory ready).1
      (memory-KubeLaws.secrets ready.kube)
      (memory-KubeLaws.secrets (process memory (false ∷ false ∷ []) ready).1.kube)
process-RootOnly_example = process-RootOnly memory memory-KubeLaws (false ∷ false ∷ []) ready

install_interm-Installed_example :
    Installed memory "s.root" "sip" empty
      (install_interm memory "s.root" empty).0
      (install_interm memory "s.root" empty).1
install_interm-Installed_example = install_interm-Installed memory "s.root" "sip" empty
