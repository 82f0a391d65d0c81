-- ===== src/Handover.antt =====
-- The root token on its way from the unsealing job to the programs that use Vault after it.
use service_identity_provide.Base.{
  String, some, List, [], ◌≡◌, refl, sym, false, ◌⊎◌, inl, inr, subst, arith,
}
use service_identity_provide.Base.Fields.{field, field-found}
use service_identity_provide.Objects.{Secret, Result, ok, err}
use service_identity_provide.Cluster.{
  Cluster, World, Outcome, returned, failed, panicked, exited, ended,
}
use service_identity_provide.Cluster.Laws.{KubeLaws, Secrets}
use service_identity_provide.Startup.{
  pod_namespace, root_token_key, need_root_token, client_with_token,
}
use service_identity_provide.Persist.Stored.{HeldBy}
use service_identity_provide.Unseal.Process.{Thread, name_of, node_0}
use service_identity_provide.Unseal.Begin.{store, begin, after_begin, program}
use service_identity_provide.Unseal.Finish.{run-BothHeld}
use service_identity_provide.Unseal.Stores.{HasToken}
use service_identity_provide.Unseal.Start
use service_identity_provide.Unseal.Start.{vault_fqdns, after_init, process}
use service_identity_provide.Operator.Manager.{Framework, Process}
use service_identity_provide.Operator.Certs
use service_identity_provide.Operator.Cas
use service_identity_provide.Operator.Start.{init_clients}
use service_identity_provide.Pki.Setup.{read_root_token}
use service_identity_provide.Pki.Start.{init}

-- An `init` that returns has a client with the token.
abbrev pub Carries : String → Outcome String → Type 0
Carries token (returned t) = t ≡ token
Carries token (failed e) = Unit
Carries token panicked = Unit
Carries token (exited n) = Unit

module _ (c : Cluster) (token : String) where
  -- The Secret, if it can be read, has the token.
  abbrev TokenIn : Result Secret → Type 0
  TokenIn (ok s) = field s.data_fields "token" ≡ token
  TokenIn (err e) = Unit

  abbrev Readable : World c.Kube c.Vault → Type 0
  Readable v = TokenIn (c.kube_get_secret (root_token_key c) v.kube).0

  init_clients-Carries :
      (v : World c.Kube c.Vault) → Readable v → Carries token (init_clients c v).0
  unfolding init_clients need_root_token client_with_token
  init_clients-Carries v h = ground arith

  init-Carries :
      (v : World c.Kube c.Vault)
      → c.accepts_token "" ≡ false
      → Readable v
      → Carries token (init c v).0
  unfolding init read_root_token client_with_token
  init-Carries v no_empty h = ground arith

  module _ (x : Framework) (p : Process c.Kube c.Vault x.State) where
    certs_init-Carries : Readable p.world → Carries token (Certs.init c x p).0
    unfolding Certs.init
    certs_init-Carries h = ground (arith, init_clients-Carries p.world h)

    cas_init-Carries : Readable p.world → Carries token (Cas.init c x p).0
    unfolding Cas.init
    cas_init-Carries h = ground (arith, init_clients-Carries p.world h)

  module _ (L : KubeLaws c) (key : String) where
    read-TokenIn :
        (m : Secrets) (r : Result Secret)
        → ((s : Secret) → r ≡ ok s → m (root_token_key c) ≡ some s)
        → HeldBy (HasToken c L (pod_namespace c) key token []) (m (root_token_key c))
        → TokenIn r
    read-TokenIn m (err e) found held = tt
    read-TokenIn m (ok s) found held =
        field-found s.data_fields "token" token
          (subst (HeldBy (HasToken c L (pod_namespace c) key token [])) (found s refl) held)

    held-Readable :
        (v : World c.Kube c.Vault)
        → HeldBy (HasToken c L (pod_namespace c) key token []) (L.secrets v.kube (root_token_key c))
        → Readable v
    held-Readable v held =
        read-TokenIn (L.secrets v.kube) _ (L.get_secret_found (root_token_key c) v.kube) held

    program-held :
        (schedule : List Thread) (names : List String) (w : World c.Kube c.Vault)
        → (begin c (pod_namespace c) (name_of node_0 names) w).0 ≡ returned (store key token)
        → let (s, w') = program c (pod_namespace c) schedule names w in
          s ≡ ended 0
          → HeldBy
              (HasToken c L (pod_namespace c) key token [])
              (L.secrets w'.kube (root_token_key c))
    unfolding program
    program-held schedule names w e =
        subst
          (λ o.
            let w1 = (begin c (pod_namespace c) (name_of node_0 names) w).1 in
            let (s, w') = after_begin c (pod_namespace c) schedule names o w1 in
            s ≡ ended 0
            → HeldBy (HasToken c L (pod_namespace c) key token [])
                (L.secrets w'.kube (root_token_key c)))
          (sym e)
          (λ over.
            (run-BothHeld c L (pod_namespace c) key token names schedule
              (begin c (pod_namespace c) (name_of node_0 names) w).1 over).1)

    -- The same of the process from its `init` on.
    process-held :
        (schedule : List Thread) (w : World c.Kube c.Vault)
        → (begin c (pod_namespace c) (name_of node_0 (vault_fqdns c)) w).0
          ≡ returned (store key token)
        → let (s, w') = process c schedule w in
          s ≡ ended 0
          → HeldBy
              (HasToken c L (pod_namespace c) key token [])
              (L.secrets w'.kube (root_token_key c))
    unfolding process
    process-held schedule w e = by_init (Start.init-cases c w)
      where
        Held0 : Outcome (List String) × World c.Kube c.Vault → Type 0
        Held0 (o, w1) =
            let (s, w') = after_init c schedule o w1 in
            s ≡ ended 0
            → HeldBy (HasToken c L (pod_namespace c) key token [])
                (L.secrets w'.kube (root_token_key c))

        by_init :
            ((Start.init c w ≡ (returned (vault_fqdns c), w))
              ⊎ ((Start.init c w ≡ (exited 1, w)) ⊎ (Start.init c w ≡ (panicked, w))))
            → Held0 (Start.init c w)
        by_init (inl reached) =
            subst Held0 (sym reached) (program-held schedule (vault_fqdns c) w e)
        by_init (inr (inl out)) = subst Held0 (sym out) (λ h. cc)
        by_init (inr (inr out)) = subst Held0 (sym out) (λ h. cc)

    -- After an unsealing job that initialised Vault and ended with status 0, on any schedule, the
    -- PKI job and both operators start with the root token of that initialisation as the token of
    -- their client of Vault, wherever their `init` returns, as long as the state of Kubernetes is
    -- the one that the job left. Vault's client is taken to refuse an empty token, since the PKI
    -- job drops the error of its read.
    pub token_handed_over :
        (x : Framework) (schedule : List Thread) (w : World c.Kube c.Vault)
        (p : Process c.Kube c.Vault x.State)
        → c.accepts_token "" ≡ false
        → (begin c (pod_namespace c) (name_of node_0 (vault_fqdns c)) w).0
          ≡ returned (store key token)
        → (process c schedule w).0 ≡ ended 0
        → p.world.kube ≡ (process c schedule w).1.kube
        → Carries token (init c p.world).0
          × (Carries token (Certs.init c x p).0 × Carries token (Cas.init c x p).0)
    token_handed_over x schedule w p no_empty e over same =
        let readable = held-Readable p.world (
          subst
            (λ kube.
              HeldBy (HasToken c L (pod_namespace c) key token [])
                (L.secrets kube (root_token_key c)))
            (sym same) (process-held schedule w e over)) in
        (
          init-Carries p.world no_empty readable,
          (certs_init-Carries x p readable, cas_init-Carries x p readable),
        )
