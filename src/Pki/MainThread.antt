-- ===== src/Pki/MainThread.antt =====
-- The main thread of the PKI job never touches the Secrets, however it ends; its
-- sixth step at the latest ends the process.
use service_identity_provide.Base.{
  ℕ, zero, suc, ◌+◌, ◌≤◌, String, Bool, true, false, Option, none, some, List, [], ◌∷◌, ◌≡◌, ◌≢◌,
  refl, ◌∙◌, ap, arith, subst, sym,
}
use service_identity_provide.Objects.{Error}
use service_identity_provide.Cluster.{
  Status, running, ended, crashed, status_of, Cluster, World, Outcome, returned, failed, panicked,
  exited,
}
use service_identity_provide.Pki.Setup.{root_ca_path, root_ca_role, disable_flag}
use service_identity_provide.Pki.Process.{
  MainAt, at_urls, checking_urls, at_role, checking_role, at_patch, at_interm, Process, TaskAt,
  at_create, finish_main, main_step, task_step, with_cert, advance, run, spawned, main_check,
}

-- `n` steps of the main thread.
abbrev pub main_only : ℕ → List Bool
main_only zero = []
main_only (suc n) = true ∷ main_only n

-- The steps of the main thread in a schedule.
abbrev pub steps_of : Bool → ℕ
steps_of true = 1
steps_of false = 0

abbrev pub main_steps : List Bool → ℕ
main_steps [] = 0
main_steps (thread ∷ schedule) = steps_of thread + main_steps schedule

status_of-Over : {A : Type 0} (o : Outcome A) → status_of o ≢ running
status_of-Over (returned _) h = cc
status_of-Over (failed _) h = cc
status_of-Over panicked h = cc
status_of-Over (exited _) h = cc

module _ (c : Cluster) (token : String) where
  pub disable_flag-keeps :
      (pki role : String) (w : World c.Kube c.Vault)
      → (disable_flag c token pki role w).1.kube ≡ w.kube
  unfolding disable_flag
  disable_flag-keeps pki role w = ground arith

  pub finish_main-keeps :
      (mounts : List String) (w : World c.Kube c.Vault)
      → (finish_main c token mounts w).1.kube ≡ w.kube
  unfolding finish_main
  finish_main-keeps mounts w = ground arith

  module _ (namespace : String) (mounts : List String) (cert : String) where
    main_check-keeps :
        (next : MainAt) (p : Process c.Kube c.Vault)
        → let p' = main_check c token namespace mounts cert next p in
          (p'.world ≡ p.world) × (p'.task ≡ p.task)
    main_check-keeps next p = checked p.shared_err
      where
        checked :
            (e : Option Error)
            → let p' =
                main_check c token namespace mounts cert next (record p { shared_err = e }) in
              (p'.world ≡ p.world) × (p'.task ≡ p.task)
        checked none = (refl, refl)
        checked (some _) = (refl, refl)

    pub main_step-keeps :
        (at : MainAt) (p : Process c.Kube c.Vault)
        → (main_step c token namespace mounts cert at p).world.kube ≡ p.world.kube
    unfolding main_step
    main_step-keeps at_urls p = refl
    main_step-keeps checking_urls p = ap (λ w. w.kube) ((main_check-keeps at_role p).0)
    main_step-keeps at_role p = refl
    main_step-keeps checking_role p = ap (λ w. w.kube) ((main_check-keeps at_patch p).0)
    main_step-keeps at_patch p = disable_flag-keeps root_ca_path root_ca_role p.world
    main_step-keeps at_interm p = finish_main-keeps mounts p.world

    pub main_step-task :
        (at : MainAt) (p : Process c.Kube c.Vault)
        → (main_step c token namespace mounts cert at p).task ≡ p.task
    unfolding main_step
    main_step-task at_urls p = refl
    main_step-task checking_urls p = (main_check-keeps at_role p).1
    main_step-task at_role p = refl
    main_step-task checking_role p = (main_check-keeps at_patch p).1
    main_step-task at_patch p = refl
    main_step-task at_interm p = refl

    abbrev Over : World c.Kube c.Vault → Process c.Kube c.Vault → Type 0
    Over w p = (p.status ≢ running) × (p.world.kube ≡ w.kube)

    abbrev process : World c.Kube c.Vault → Option Error → MainAt → TaskAt → Process c.Kube c.Vault
    process w e at task = record {
      world = w;
      shared_err = e;
      main = at;
      task = task;
      status = running;
    }

    abbrev Alone : ℕ → MainAt → Type 0
    Alone n at =
        (w : World c.Kube c.Vault) (e : Option Error) (task : TaskAt)
        → Over w (run c token namespace mounts cert (main_only n) (process w e at task))

    interm-Alone : Alone 1 at_interm
    unfolding run advance main_step
    interm-Alone w e task =
        (status_of-Over (finish_main c token mounts w).0, finish_main-keeps mounts w)

    patch-Alone : Alone 2 at_patch
    unfolding run advance main_step
    patch-Alone w e task =
        let (stopped, same) =
          interm-Alone (disable_flag c token root_ca_path root_ca_role w).1 e task in
        (stopped, same ∙ disable_flag-keeps root_ca_path root_ca_role w)

    role_check-Alone : Alone 3 checking_role
    unfolding run advance main_step
    role_check-Alone w none task = patch-Alone w none task
    role_check-Alone w (some e) task = (λ h. cc, refl)

    role-Alone : Alone 4 at_role
    unfolding run advance main_step
    role-Alone w e task = role_check-Alone _ _ task

    urls_check-Alone : Alone 5 checking_urls
    unfolding run advance main_step
    urls_check-Alone w none task = role-Alone w none task
    urls_check-Alone w (some e) task = (λ h. cc, refl)

    urls-Alone : Alone 6 at_urls
    unfolding run advance main_step
    urls-Alone w e task = urls_check-Alone _ _ task

    -- The steps that the main thread has left.
    abbrev steps_left : MainAt → ℕ
    steps_left at_urls = 6
    steps_left checking_urls = 5
    steps_left at_role = 4
    steps_left checking_role = 3
    steps_left at_patch = 2
    steps_left at_interm = 1

    -- A process that is over, or whose main thread has at most `n` steps left.
    abbrev Within : ℕ → Process c.Kube c.Vault → Type 0
    Within n p = p.status ≡ running → steps_left p.main ≤ n

    main_check-Within :
        (next : MainAt) (n : ℕ) (e : Option Error) (p : Process c.Kube c.Vault)
        → steps_left next ≤ n
        → Within n (main_check c token namespace mounts cert next (record p { shared_err = e }))
    main_check-Within next n none p h r = h
    main_check-Within next n (some x) p h r = cc

    main_step-Within :
        (at : MainAt) (n : ℕ) (p : Process c.Kube c.Vault)
        → steps_left at ≤ suc n
        → Within n (main_step c token namespace mounts cert at p)
    unfolding main_step
    main_step-Within at_urls n p h r = omega arith
    main_step-Within checking_urls n p h r =
        main_check-Within at_role n p.shared_err p (omega arith) r
    main_step-Within at_role n p h r = omega arith
    main_step-Within checking_role n p h r =
        main_check-Within at_patch n p.shared_err p (omega arith) r
    main_step-Within at_patch n p h r = omega arith
    main_step-Within at_interm n p h r =
        absurd (status_of-Over (finish_main c token mounts p.world).0 r)

    task_step-main :
        (at : TaskAt) (p : Process c.Kube c.Vault)
        → (task_step c token namespace mounts cert at p).main ≡ p.main
    unfolding task_step with_cert
    task_step-main at p = ground arith

    advance-Within :
        (status : Status) (thread : Bool) (n : ℕ) (p : Process c.Kube c.Vault)
        → p.status ≡ status
        → Within (steps_of thread + n) p
        → Within n (advance c token namespace mounts cert status thread p)
    unfolding advance
    advance-Within running true n p r h go = main_step-Within p.main n p (omega (arith, h r)) go
    advance-Within running false n p r h go =
        subst (λ at. steps_left at ≤ n) (sym (task_step-main p.task p)) (omega (arith, h r))
    advance-Within (ended code) thread n p r h go = cc
    advance-Within crashed thread n p r h go = cc

    main_steps-Within :
        (schedule : List Bool) (p : Process c.Kube c.Vault)
        → Within (main_steps schedule) p
        → Within 0 (run c token namespace mounts cert schedule p)
    unfolding run
    main_steps-Within [] p h = h
    main_steps-Within (thread ∷ schedule) p h =
        main_steps-Within schedule (advance c token namespace mounts cert p.status thread p)
          (advance-Within p.status thread (main_steps schedule) p refl h)

    positive : (at : MainAt) → steps_left at ≤ 0 → ⊥
    positive at_urls h = omega arith
    positive checking_urls h = omega arith
    positive at_role h = omega arith
    positive checking_role h = omega arith
    positive at_patch h = omega arith
    positive at_interm h = omega arith

    -- On every schedule with at least six steps of the main thread the process is over, whatever
    -- the goroutine does in between. On the schedule of these six steps alone, Kubernetes is then as
    -- before, whatever the status: nothing waits for the Secret to be written.
    pub run-main_alone :
        (schedule : List Bool) (w : World c.Kube c.Vault)
        → 6 ≤ main_steps schedule
        → ((run c token namespace mounts cert schedule
              (spawned c token namespace mounts cert w)).status
            ≢ running)
          × ((run c token namespace mounts cert
                (main_only 6)
                (spawned c token namespace mounts cert w)).world.kube
              ≡ w.kube)
    run-main_alone schedule w enough = (
      λ r.
          positive _
            (main_steps-Within schedule (spawned c token namespace mounts cert w) (λ _. enough) r),
      (urls-Alone w none at_create).1,
    )
