-- ===== src/Persist.antt =====
-- How the programs under vault/client-go write a Secret: create it; where it exists already, read
-- it, set its entries and update it. The same statements stand in init/main.go, twice, and in
-- bootstrap/main.go. One step is one request with what the code makes of its answer.
pub mod Stored
pub mod Enough
use service_identity_provide.Base.{ℕ, zero, suc, String, Option, none, some, List, [], ◌∷◌}
use service_identity_provide.Base.Fields.{Fields}
use service_identity_provide.Objects.{
  NamespacedName, Secret, Error, not_found, already_exists, invalid, other, Result, ok, err, key_of,
}
use service_identity_provide.Cluster.{Cluster, World, returned, panicked, exited}
use service_identity_provide.Cluster.Api.{Go, create_secret, get_secret, update_secret}

-- The next request; `updating` holds the Secret that was read, with its new entries.
pub data Stage : Type 0 where
  creating getting : Stage
  updating : Secret → Stage

-- What a step comes to: another request, the end, `log.Fatal`, or a panic.
pub data Progress : Type 0 where
  next : Stage → Progress
  done : Progress
  stopped : Progress
  broke : Progress

-- The `switch` on the error of the creation.
abbrev pub after_create : Result (Unit {0}) → Progress
after_create (ok _) = done
after_create (err not_found) = stopped
after_create (err already_exists) = next getting
after_create (err invalid) = stopped
after_create (err (other text)) = stopped

-- An assignment to the data of a Secret without any, as after a failed read, is to a nil map.
abbrev pub set_entries : (Fields → Fields) → Fields → Secret → Progress
set_entries change [] s = broke
set_entries change (entry ∷ rest) s =
    next (updating (record s { data_fields = change (entry ∷ rest) }))

abbrev pub after_get : (Fields → Fields) → Result Secret → Progress
after_get change (err e) = broke
after_get change (ok s) = set_entries change s.data_fields s

abbrev pub after_update : Result (Unit {0}) → Progress
after_update (ok _) = done
after_update (err e) = stopped

module _ (c : Cluster) (wanted : Secret) (change : Fields → Fields) where
  unfoldable pub persist_step : Stage → World c.Kube c.Vault → Progress × World c.Kube c.Vault
  persist_step creating w =
      (after_create (c.kube_create_secret wanted w.kube).0, (create_secret c wanted w).1)
  persist_step getting w = (
    after_get change (c.kube_get_secret (key_of wanted) w.kube).0,
    (get_secret c (key_of wanted) w).1,
  )
  persist_step (updating s) w =
      (after_update (c.kube_update_secret s w.kube).0, (update_secret c s w).1)

  -- All steps, of which there are three at most. `log.Fatal` ends the process with status 1.
  unfoldable pub persist_from : ℕ → Stage → Go c (Unit {0})
  unfolding persist_step
  persist_from zero stage w = (panicked, w)
  persist_from (suc n) stage w =
      let (r, w') = persist_step stage w in
      elim r [
        | next stage' ↦ persist_from n stage' w'
        | done ↦ (returned tt, w')
        | stopped ↦ (exited 1, w')
        | broke ↦ (panicked, w')
      ]
