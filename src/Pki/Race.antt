-- ===== src/Pki/Race.antt =====
-- The shared `err` of the PKI job: what one thread's assignment hides from the other.
use service_identity_provide.Base.{String, true, false, List, [], ◌∷◌, ◌≡◌, refl}
use service_identity_provide.Objects.{Error, already_exists, ok, err}
use service_identity_provide.Cluster.{running, ended, Cluster, World}
use service_identity_provide.Pki.Setup.{root_ca_path, urls_request}
use service_identity_provide.Pki.Process.{
  at_role, at_get, finished, root_secret, main_step, task_step, advance, run, spawned,
}

module _ (c : Cluster) (token namespace : String) (mounts : List String) (cert : String) where
  abbrev pub Loses : World c.Kube c.Vault → Type 0
  Loses w =
      let alone =
        run c token namespace mounts cert (true ∷ true ∷ [])
          (spawned c token namespace mounts cert w) in
      let between =
        run c token namespace mounts cert (true ∷ false ∷ true ∷ [])
          (spawned c token namespace mounts cert w) in
      (alone.status ≡ ended 1) × ((between.status ≡ running) × (between.main ≡ at_role))

  -- If Vault refuses the URLs, then the process ends with status 1 where the main thread tests the
  -- error at once. If the goroutine creates its Secret between the request and the test, the main
  -- thread finds no error and goes on to write the role, with the URLs not configured.
  pub run-urls_error :
      (w : World c.Kube c.Vault) (e : Error)
      → (c.vault_configure_urls (urls_request root_ca_path) root_ca_path w.vault).0 ≡ err e
      → (c.kube_create_secret (root_secret namespace cert) w.kube).0 ≡ ok tt
      → Loses w
  unfolding run advance main_step task_step
  run-urls_error w e refused created = (rw refused, (rw created, rw created))

  abbrev pub Skips : World c.Kube c.Vault → Type 0
  Skips w =
      let alone =
        run c token namespace mounts cert (false ∷ false ∷ false ∷ false ∷ [])
          (spawned c token namespace mounts cert w) in
      let between =
        run c token namespace mounts cert (false ∷ true ∷ false ∷ [])
          (spawned c token namespace mounts cert w) in
      let inside =
        run c token namespace mounts cert
          (false ∷ false ∷ true ∷ false ∷ false ∷ false ∷ false ∷ [])
          (spawned c token namespace mounts cert w) in
      (alone.task ≡ at_get)
      × ((between.task ≡ finished)
          × ((between.status ≡ running)
              × ((between.world.kube ≡ (c.kube_create_secret (root_secret namespace cert) w.kube).1)
                  × (inside.status ≡ ended 1))))

  -- If the Secret is there already, the goroutine goes on to read and update it where it tests the
  -- error of its creation at once. If Vault accepts the URLs between the creation and the test, the
  -- goroutine finds no error and ends, and its failed creation is all that it did in Kubernetes. If
  -- Vault accepts them between the test and the switch, no case fits the variable any more, and the
  -- default case ends the process with status 1.
  pub run-create_error :
      (w : World c.Kube c.Vault)
      → (c.kube_create_secret (root_secret namespace cert) w.kube).0 ≡ err already_exists
      → (c.vault_configure_urls (urls_request root_ca_path) root_ca_path w.vault).0 ≡ ok tt
      → Skips w
  unfolding run advance main_step task_step
  run-create_error w taken accepted =
      (rw taken, (rw accepted, (rw accepted, (rw accepted, (rw (taken, accepted) refl)))))
