-- ===== src/Persist/Stored.antt =====
-- A Secret that was written holds its entries, and no other Secret was touched.
use service_identity_provide.Base.{
  ℕ, zero, suc, true, false, Option, none, some, [], ◌∷◌, ◌≡◌, refl, ◌∙◌, ap, subst, sym, eq_refl,
}
use service_identity_provide.Base.Fields.{Fields, merge}
use service_identity_provide.Objects.{
  NamespacedName, Secret, not_found, already_exists, invalid, other, Result, ok, err, key_of,
}
use service_identity_provide.Cluster.{Cluster, World, Outcome, returned, failed, panicked, exited}
use service_identity_provide.Cluster.Laws.{KubeLaws, Secrets, key_eq, put, stored, written}
use service_identity_provide.Persist.{
  Stage, creating, getting, updating, Progress, next, done, stopped, broke, after_create,
  set_entries, after_get, after_update, persist_step, persist_from,
}

put_here :
    (s : Secret) (m : Secrets) (k : NamespacedName)
    → key_eq (key_of s) k ≡ true
    → put s m k ≡ some (stored s)
put_here s m k h = rw h

put_else :
    (s : Secret) (m : Secrets) (k : NamespacedName) → key_eq (key_of s) k ≡ false → put s m k ≡ m k
put_else s m k h = rw h

pub key_eq_refl : (k : NamespacedName) → key_eq k k ≡ true
key_eq_refl k = rw (eq_refl k.namespace, eq_refl k.name)

-- The entries that are asked for are those of which `Good` speaks.
module _ (Good : Fields → Type 0) where
  abbrev pub HeldBy : Option Secret → Type 0
  HeldBy none = ⊥
  HeldBy (some s) = Good s.data_fields

  module _ (key : NamespacedName) where
    abbrev pub Holds : Secret → Type 0
    Holds s = (key_of s ≡ key) × Good (stored s).data_fields

    abbrev pub Held : Secrets → Type 0
    Held m = HeldBy (m key)

    -- Only the Secret with the key may have changed.
    abbrev pub Only : Secrets → Secrets → Type 0
    Only before after = (k : NamespacedName) → key_eq key k ≡ false → after k ≡ before k

    put-Held : (m : Secrets) (s : Secret) → Holds s → Held (put s m)
    put-Held m s (named, good) =
        subst HeldBy (sym (put_here s m key (ap (λ k. key_eq k key) named ∙ key_eq_refl key))) good

    put-Only : (before m : Secrets) (s : Secret) → Holds s → Only before m → Only before (put s m)
    put-Only before m s (named, good) only k e =
        put_else s m k (ap (λ j. key_eq j k) named ∙ e) ∙ only k e

    written-Only :
        (before m : Secrets) (s : Secret) (r : Result (Unit {0}))
        → Holds s
        → Only before m
        → Only before (written s r m)
    written-Only before m s (ok _) h only = put-Only before m s h only
    written-Only before m s (err _) h only = only

    abbrev pub Ready : Stage → Type 0
    Ready creating = Unit
    Ready getting = Unit
    Ready (updating s) = Holds s

    -- What is known after a step.
    abbrev pub Reached : Secrets → Progress → Secrets → Type 0
    Reached before (next at) m = Only before m × Ready at
    Reached before done m = Only before m × Held m
    Reached before stopped m = Only before m
    Reached before broke m = Only before m

    created-Reached :
        (before m : Secrets) (s : Secret) (r : Result (Unit {0}))
        → Holds s
        → Only before m
        → Reached before (after_create r) (written s r m)
    created-Reached before m s (ok _) h only = (put-Only before m s h only, put-Held m s h)
    created-Reached before m s (err not_found) h only = only
    created-Reached before m s (err already_exists) h only = (only, tt)
    created-Reached before m s (err invalid) h only = only
    created-Reached before m s (err (other text)) h only = only

    updated-Reached :
        (before m : Secrets) (s : Secret) (r : Result (Unit {0}))
        → Holds s
        → Only before m
        → Reached before (after_update r) (written s r m)
    updated-Reached before m s (ok _) h only = (put-Only before m s h only, put-Held m s h)
    updated-Reached before m s (err _) h only = only

    module _ (change : Fields → Fields) (changed : (d : Fields) → Good (change d)) where
      set-Reached :
          (before m : Secrets) (d : Fields) (s : Secret)
          → key_of s ≡ key
          → s.string_data ≡ []
          → Only before m
          → Reached before (set_entries change d s) m
      unfolding merge
      set-Reached before m [] s named plain only = only
      set-Reached before m (entry ∷ rest) s named plain only = (
        only,
        (
          named,
          subst (λ t. Good (merge (change (entry ∷ rest)) t)) (sym plain) (changed (entry ∷ rest)),
        ),
      )

      got-Reached :
          (before m : Secrets) (r : Result Secret)
          → ((x : Secret) → r ≡ ok x → (key_of x ≡ key) × (x.string_data ≡ []))
          → Only before m
          → Reached before (after_get change r) m
      got-Reached before m (err e) named only = only
      got-Reached before m (ok s) named only =
          let (key, plain) = named s refl in set-Reached before m s.data_fields s key plain only

module _ (c : Cluster) (L : KubeLaws c) (Good : Fields → Type 0) (wanted : Secret)
    (change : Fields → Fields) (changed : (d : Fields) → Good (change d))
    (literal : Good (stored wanted).data_fields) where
  pub persist_step-Reached :
      (before : Secrets) (at : Stage) (w : World c.Kube c.Vault)
      → Ready Good (key_of wanted) at
      → Only Good (key_of wanted) before (L.secrets w.kube)
      → let (p, w') = persist_step c wanted change at w in
        Reached Good (key_of wanted) before p (L.secrets w'.kube)
  unfolding persist_step
  persist_step-Reached before creating w ready only =
      subst
        (Reached Good (key_of wanted) before (after_create (c.kube_create_secret wanted w.kube).0))
        (sym (L.create_writes wanted w.kube))
        (created-Reached Good (key_of wanted) before (L.secrets w.kube) wanted _ (refl, literal)
          only)
  persist_step-Reached before getting w ready only =
      subst
        (Reached Good (key_of wanted) before
          (after_get change (c.kube_get_secret (key_of wanted) w.kube).0))
        (sym (L.get_secret_keeps (key_of wanted) w.kube))
        (got-Reached Good (key_of wanted) change changed before (L.secrets w.kube) _
          (L.get_secret_named (key_of wanted) w.kube) only)
  persist_step-Reached before (updating s) w ready only =
      subst (Reached Good (key_of wanted) before (after_update (c.kube_update_secret s w.kube).0))
        (sym (L.update_writes s w.kube))
        (updated-Reached Good (key_of wanted) before (L.secrets w.kube) s _ ready only)

  -- Once all steps are done, the Secret holds its entries; if they broke off, it may have changed.
  abbrev pub Ended : Secrets → Outcome (Unit {0}) → Secrets → Type 0
  Ended before (returned _) m = Only Good (key_of wanted) before m × Held Good (key_of wanted) m
  Ended before (failed _) m = Only Good (key_of wanted) before m
  Ended before panicked m = Only Good (key_of wanted) before m
  Ended before (exited _) m = Only Good (key_of wanted) before m

  pub persist_from-Ended :
      (before : Secrets) (n : ℕ) (at : Stage) (w : World c.Kube c.Vault)
      → Ready Good (key_of wanted) at
      → Only Good (key_of wanted) before (L.secrets w.kube)
      → let (o, w') = persist_from c wanted change n at w in Ended before o (L.secrets w'.kube)
  unfolding persist_from
  persist_from-Ended before zero at w ready only = only
  persist_from-Ended before (suc n) at w ready only =
      by_progress (persist_step c wanted change at w).0
        (persist_step-Reached before at w ready only)
        (λ at' ready' only'.
          persist_from-Ended before n at' (persist_step c wanted change at w).1 ready' only')
    where
      w' : World c.Kube c.Vault
      w' = (persist_step c wanted change at w).1

      rest : Progress → Outcome (Unit {0}) × World c.Kube c.Vault
      rest r = elim r [
        | next at' ↦ persist_from c wanted change n at' w'
        | done ↦ (returned tt, w')
        | stopped ↦ (exited 1, w')
        | broke ↦ (panicked, w')
      ]

      by_progress :
          (r : Progress)
          → Reached Good (key_of wanted) before r (L.secrets w'.kube)
          → ((at' : Stage)
              → Ready Good (key_of wanted) at'
              → Only Good (key_of wanted) before (L.secrets w'.kube)
              → let (o, w'') = persist_from c wanted change n at' w' in
                Ended before o (L.secrets w''.kube))
          → Ended before (rest r).0 (L.secrets (rest r).1.kube)
      by_progress (next at') (only', ready') later = later at' ready' only'
      by_progress done reached later = reached
      by_progress stopped only' later = only'
      by_progress broke only' later = only'
