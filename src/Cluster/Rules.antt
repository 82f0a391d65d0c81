-- ===== src/Cluster/Rules.antt =====
-- Rules for chains of calls: what holds after a chain, and of the requests that it sends.
use service_identity_provide.Base.{◌≡◌, refl, ◌∷◌}
use service_identity_provide.Base.Lists.{Every}
use service_identity_provide.Objects.{Error, Result, ok, err}
use service_identity_provide.Cluster.Calls.{Call}
use service_identity_provide.Cluster.Effects.{
  World, Act, Outcome, returned, failed, panicked, exited, M, ◌>>=◌, outcome_of, attempt, try,
  ask_kube, ask_vault,
}

-- An outcome with no value, which the rest of a function passes on.
abbrev pub Stops : {A : Type 0} → Outcome A → Type 0
Stops (returned _) = ⊥
Stops _ = Unit

-- A run that returned has returned from its first part, and from the rest.
pub bind_returned :
    {S A B : Type 0} (Q : S → Type 0) (m : Act S A) (f : A → Act S B) (s : S) (b : B)
    → ((m >>= f) s).0 ≡ returned b
    → ((a : A) → (m s).0 ≡ returned a → (f a (m s).1).0 ≡ returned b → Q (f a (m s).1).1)
    → Q ((m >>= f) s).1
bind_returned {S = S} {A = A} {B = B} Q m f s b = split (m s).0 refl
  where
    chain : Outcome A → Outcome B × S
    chain o = ◌>>=◌ {S = S} (λ _. (o, (m s).1)) f s

    split :
        (o : Outcome A)
        → (m s).0 ≡ o
        → (chain o).0 ≡ returned b
        → ((a : A) → (m s).0 ≡ returned a → (f a (m s).1).0 ≡ returned b → Q (f a (m s).1).1)
        → Q (chain o).1
    split (returned a) e done rest = rest a e done
    split (failed e') e done rest = cc
    split panicked e done rest = cc
    split (exited n) e done rest = cc

module _ {K V A B : Type 0} where
  -- The second part may use what the first returned; where the first stops, the chain does.
  pub bind_rule :
      (Q : Outcome B → World K V → Type 0) (m : M K V A) (f : A → M K V B) (w : World K V)
      → ((a : A) → (m w).0 ≡ returned a → Q (f a (m w).1).0 (f a (m w).1).1)
      → ((o : Outcome B) → Stops o → Q o (m w).1)
      → Q ((m >>= f) w).0 ((m >>= f) w).1
  bind_rule Q m f w rest stop = split (m w).0 refl
    where
      chain : Outcome A → Outcome B × World K V
      chain o = ◌>>=◌ {S = World K V} (λ _. (o, (m w).1)) f w

      split : (o : Outcome A) → (m w).0 ≡ o → Q (chain o).0 (chain o).1
      split (returned a) e = rest a e
      split (failed e') e = stop (failed e') tt
      split panicked e = stop panicked tt
      split (exited n) e = stop (exited n) tt

  pub bind-Every :
      (P : Call → Type 0) (m : M K V A) (f : A → M K V B) (w : World K V)
      → Every P (m w).1.trace
      → ((a : A) → (m w).0 ≡ returned a → Every P (f a (m w).1).1.trace)
      → Every P ((m >>= f) w).1.trace
  bind-Every P m f w first rest = bind_rule (λ _ w'. Every P w'.trace) m f w rest (λ _ _. first)

  -- A service answers each request, so a caller that looks at the error always goes on.
  pub try_kube_rule :
      (Q : Outcome B → World K V → Type 0) (call : Call) (g : K → Result A × K)
      (f : Result A → M K V B) (w : World K V)
      → (let (r, k) = g w.kube in
          let w' : World K V = record w { kube = k; trace = call ∷ w.trace } in
          Q (f r w').0 (f r w').1)
      → Q ((try (ask_kube call g) >>= f) w).0 ((try (ask_kube call g) >>= f) w).1
  try_kube_rule Q call g f w = split (g w.kube).0
    where
      w' : World K V
      w' = record w { kube = (g w.kube).1; trace = call ∷ w.trace }

      chain : Result A → Outcome B × World K V
      chain r = ◌>>=◌ {S = World K V} (λ _. (attempt (outcome_of r), w')) f w

      split : (r : Result A) → Q (f r w').0 (f r w').1 → Q (chain r).0 (chain r).1
      split (ok a) h = h
      split (err e) h = h

  -- A request to Vault: the rest runs with the answer, or the chain ends with its error.
  pub vault_rule :
      (Q : Outcome B → World K V → Type 0) (call : Call) (g : V → Result A × V) (f : A → M K V B)
      (w : World K V)
      → (let w' : World K V = record w { vault = (g w.vault).1; trace = call ∷ w.trace } in
          ((a : A) → (g w.vault).0 ≡ ok a → Q (f a w').0 (f a w').1)
          × ((e : Error) → (g w.vault).0 ≡ err e → Q (failed e) w'))
      → Q ((ask_vault call g >>= f) w).0 ((ask_vault call g >>= f) w).1
  vault_rule Q call g f w (rest, stop) = split (g w.vault).0 refl
    where
      w' : World K V
      w' = record w { vault = (g w.vault).1; trace = call ∷ w.trace }

      chain : Result A → Outcome B × World K V
      chain r = ◌>>=◌ {S = World K V} (λ _. (outcome_of r, w')) f w

      split : (r : Result A) → (g w.vault).0 ≡ r → Q (chain r).0 (chain r).1
      split (ok a) e = rest a e
      split (err x) e = stop x e
