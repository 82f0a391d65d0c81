-- ===== src/Cluster/Effects.antt =====
-- A Go function with effects: it runs in a world, and returns, fails with an error, panics or
-- ends the process.
use service_identity_provide.Base.{ℕ, List, ◌∷◌, ◌≡◌}
use service_identity_provide.Objects.{Error, Result, ok, err}
use service_identity_provide.Cluster.Calls.{Call}

-- The two services, and the requests that were sent to them, newest first.
pub record World (K V : Type 0) : Type 0 where
  pub kube : K
  pub vault : V
  pub trace : List Call

pub data Outcome (A : Type 0) : Type 0 where
  returned : A → Outcome A
  failed : Error → Outcome A
  panicked : Outcome A
  exited : ℕ → Outcome A

abbrev pub outcome_of : {A : Type 0} → Result A → Outcome A
outcome_of (ok a) = returned a
outcome_of (err e) = failed e

pub ok_of_returned : {A : Type 0} (r : Result A) {a : A} → outcome_of r ≡ returned a → r ≡ ok a
ok_of_returned (ok _) h = cc
ok_of_returned (err _) h = cc

-- What a caller that looks at the error gets.
abbrev pub attempt : {A : Type 0} → Outcome A → Outcome (Result A)
attempt (returned a) = returned (ok a)
attempt (failed e) = returned (err e)
attempt panicked = panicked
attempt (exited n) = exited n

-- The rest of a function that needs the value.
abbrev pub and_then : {A B : Type 0} → Outcome A → (A → Outcome B) → Outcome B
and_then (returned a) f = f a
and_then (failed e) f = failed e
and_then panicked f = panicked
and_then (exited n) f = exited n

-- The rest of a function after `if err != nil { log.Fatal(err) }`.
abbrev pub fatal_outcome : {A : Type 0} → Outcome A → Outcome A
fatal_outcome (returned a) = returned a
fatal_outcome (failed e) = exited 1
fatal_outcome panicked = panicked
fatal_outcome (exited n) = exited n

-- A process with threads: it runs, or has ended, or a panic ended it.
pub data Status : Type 0 where
  running : Status
  ended : ℕ → Status
  crashed : Status

-- The status that `main` leaves where it ends with `os.Exit(0)`.
abbrev pub status_of : {A : Type 0} → Outcome A → Status
status_of (returned a) = ended 0
status_of (failed e) = crashed
status_of panicked = crashed
status_of (exited n) = ended n

-- A function on the states `S`.
abbrev pub Act : Type 0 → Type 0 → Type 0
Act S A = S → Outcome A × S

abbrev pub M : Type 0 → Type 0 → Type 0 → Type 0
M K V A = Act (World K V) A

module _ {S : Type 0} where
  infixl 5 ◌>>=◌ ◌>>◌
  abbrev pub ◌>>=◌ : {A B : Type 0} → Act S A → (A → Act S B) → Act S B
  ◌>>=◌ m f w =
      let (o, w') = m w in
      elim o [
        | returned a ↦ f a w'
        | failed e ↦ (failed e, w')
        | panicked ↦ (panicked, w')
        | exited n ↦ (exited n, w')
      ]

  abbrev pub ◌>>◌ : {A B : Type 0} → Act S A → Act S B → Act S B
  m >> k = m >>= λ _. k

  abbrev pub pure : {A : Type 0} → A → Act S A
  pure a w = (returned a, w)

  -- `return ..., err` with an error that is not nil.
  abbrev pub fail : {A : Type 0} → Error → Act S A
  fail e w = (failed e, w)

  abbrev pub lift : {A : Type 0} → Outcome A → Act S A
  lift o w = (o, w)

  -- A call whose error the caller looks at.
  abbrev pub try : {A : Type 0} → Act S A → Act S (Result A)
  try m w = let (o, w') = m w in (attempt o, w')

  -- A call whose error ends the process, as by `log.Fatal`.
  abbrev pub or_fatal : {A : Type 0} → Act S A → Act S A
  or_fatal m w = let (o, w') = m w in (fatal_outcome o, w')

module _ {K V : Type 0} where
  abbrev pub ask_kube : {A : Type 0} → Call → (K → Result A × K) → M K V A
  ask_kube c f w =
      let (r, k) = f w.kube in (outcome_of r, record w { kube = k; trace = c ∷ w.trace })

  abbrev pub ask_vault : {A : Type 0} → Call → (V → Result A × V) → M K V A
  ask_vault c f w =
      let (r, v) = f w.vault in (outcome_of r, record w { vault = v; trace = c ∷ w.trace })
