-- ===== src/Operator/Rules.antt =====
-- Rules for what a process asks of its manager: a plan, followed up to the first refusal.
use service_identity_provide.Base.{
  String, Bool, true, false, List, [], ◌∷◌, ◌≡◌, refl, ◌⊎◌, inl, inr, subst,
}
use service_identity_provide.Objects.{Result, ok, err}
use service_identity_provide.Cluster.{
  Cluster, Outcome, returned, failed, panicked, exited, and_then, outcome_of, fatal_outcome, ◌>>=◌,
  lift,
}
use service_identity_provide.Startup.{go_on_if}
use service_identity_provide.Operator.Flags.{Flags}
use service_identity_provide.Operator.Manager.{
  Event, add_healthz_check, add_readyz_check, start, Framework, Process, Op, need,
}
use service_identity_provide.Operator.Start.{finish_setup}

-- A plan that was followed: the process has asked for all of it and `main` returned, or for its
-- first few parts, of which the last was refused, and ended with status 1.
abbrev pub Followed : List Event → Outcome (Unit {0}) → List Event → List Event → Type 0
Followed [] o before after = (o ≡ returned tt) × (after ≡ before)
Followed (e ∷ plan) o before after =
    ((o ≡ exited 1) × (after ≡ e ∷ before)) ⊎ Followed plan o (e ∷ before) after

abbrev pub end_plan : List Event
end_plan = add_healthz_check "healthz" ∷ add_readyz_check "readyz" ∷ start ∷ []

-- How a function ended, without its value.
abbrev pub without_value : {A : Type 0} → Outcome A → Outcome (Unit {0})
without_value o = and_then o (λ _. returned tt)

-- By how `init` and `flag.Parse` ended, and whether there is a configuration: the plan is
-- followed, or nothing was asked and the process ends as the part that did not return.
abbrev pub Started :
    (Flags → String → List Event)
    → Outcome String
    → Outcome Flags
    → Bool
    → Outcome (Unit {0})
    → List Event
    → List Event
    → Type 0
Started plan (returned token) (returned f) true o before after =
    Followed (plan f token) o before after
Started plan (returned token) (returned f) false o before after = (o ≡ exited 1) × (after ≡ before)
Started plan (returned token) parsed configured o before after =
    (o ≡ without_value parsed) × (after ≡ before)
Started plan inited parsed configured o before after = (o ≡ without_value inited) × (after ≡ before)

module _ (c : Cluster) (x : Framework) where
  abbrev pub State : Type 0
  State = Process c.Kube c.Vault x.State

  -- The process once it asked.
  abbrev pub asked : Event → x.State → State → State
  asked e s p = record p { manager = s; events = e ∷ p.events }

  pub need-Followed :
      (plan : List Event) (e : Event) (f : Op c x (Unit {0})) (p : State)
      → ((s : x.State) → let (o, p') = f (asked e s p) in Followed plan o (e ∷ p.events) p'.events)
      → let (o, p') = (need c x e >>= λ _. f) p in Followed (e ∷ plan) o p.events p'.events
  need-Followed plan e f p rest = by_reply (x.request e p.manager).0
    where
      s : x.State
      s = (x.request e p.manager).1

      chain : Result (Unit {0}) → Outcome (Unit {0}) × State
      chain r = ◌>>=◌ {S = State} (λ _. (fatal_outcome (outcome_of r), asked e s p)) (λ _. f) p

      by_reply :
          (r : Result (Unit {0})) → Followed (e ∷ plan) (chain r).0 p.events (chain r).1.events
      by_reply (ok _) = inr (rest s)
      by_reply (err _) = inl (refl, refl)

  pub last-Followed :
      (e : Event) (p : State) → Followed (e ∷ []) (need c x e p).0 p.events (need c x e p).1.events
  last-Followed e p = by_reply (x.request e p.manager).0
    where
      by_reply :
          (r : Result (Unit {0}))
          → Followed (e ∷ []) (fatal_outcome (outcome_of r)) p.events (e ∷ p.events)
      by_reply (ok tt) = inr (refl, refl)
      by_reply (err _) = inl (refl, refl)

  pub finish_setup-Followed :
      (p : State) → let (o, p') = finish_setup c x p in Followed end_plan o p.events p'.events
  unfolding finish_setup
  finish_setup-Followed p =
      need-Followed (add_readyz_check "readyz" ∷ start ∷ []) (add_healthz_check "healthz")
        (need c x (add_readyz_check "readyz") >>= λ _. need c x start) p
        (λ s.
          need-Followed (start ∷ []) (add_readyz_check "readyz") (need c x start)
            (asked (add_healthz_check "healthz") s p)
            (λ s'.
              last-Followed start
                (asked (add_readyz_check "readyz") s' (asked (add_healthz_check "healthz") s p))))

  -- `main` once the flags are parsed.
  abbrev pub with_flags :
      (Flags → Op c x (Unit {0})) → Outcome Flags → Bool → State → Outcome (Unit {0}) × State
  with_flags rest parsed configured p =
      ◌>>=◌ {S = State} (λ _. (parsed, p)) (λ f. lift (go_on_if configured) >>= λ _. rest f) p

  pub with_flags-Started :
      (plan : Flags → String → List Event) (token : String) (rest : Flags → Op c x (Unit {0}))
      (parsed : Outcome Flags) (configured : Bool) (p : State)
      → ((f : Flags) → Followed (plan f token) (rest f p).0 p.events (rest f p).1.events)
      → let (o, p') = with_flags rest parsed configured p in
        Started plan (returned token) parsed configured o p.events p'.events
  with_flags-Started plan token rest (returned f) true p h = h f
  with_flags-Started plan token rest (returned f) false p h = (refl, refl)
  with_flags-Started plan token rest (failed e) b p h = (refl, refl)
  with_flags-Started plan token rest panicked b p h = (refl, refl)
  with_flags-Started plan token rest (exited n) b p h = (refl, refl)

  -- A process whose `init` asks for nothing.
  pub program-Started :
      (plan : Flags → String → List Event) (parsed : Outcome Flags) (configured : Bool)
      (main : String → Op c x (Unit {0})) (before : List Event) (inited : Outcome String)
      (p : State)
      → p.events ≡ before
      → ((token : String)
          → let (o, p') = main token p in
            Started plan (returned token) parsed configured o p.events p'.events)
      → let (o, p') = ◌>>=◌ {S = State} (λ _. (inited, p)) main p in
        Started plan inited parsed configured o before p'.events
  program-Started plan parsed configured main before (returned token) p e h =
      subst
        (λ events.
          Started plan (returned token) parsed configured (main token p).0 events
            (main token p).1.events)
        e (h token)
  program-Started plan parsed configured main before (failed x) p e h = (refl, e)
  program-Started plan parsed configured main before panicked p e h = (refl, e)
  program-Started plan parsed configured main before (exited n) p e h = (refl, e)
