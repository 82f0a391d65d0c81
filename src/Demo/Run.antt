-- ===== src/Demo/Run.antt =====
-- What a whole run of the tool leaves behind: the two chains.
use service_identity_provide.Base.{
  String, ◌<>◌, false, some, [], ◌∷◌, ◌≡◌, inl, inr, refl, ◌∙◌, ap, arith, str_eq,
}
use service_identity_provide.Cluster.{◌>>=◌, Outcome, returned, exited}
use service_identity_provide.Cluster.Rules.{bind_returned}
use service_identity_provide.Demo.Machine.{Packages, Machine, Tool}
use service_identity_provide.Demo.Util.{build_server_cert_chain, build_client_cert_chain}
use service_identity_provide.Demo.Flows.{
  gen_ca, gen_interm_csr_and_cert, gen_server_cert, gen_client_cert, main,
}
use service_identity_provide.Demo.Chains.{Joined, build_chain_into-Joined}

exit_not_returned : {A : Type 0} {a : A} (o : Outcome A) → o ≡ exited 1 → o ≡ returned a → ⊥
exit_not_returned o e h = cc

module _ (x : Packages) where
  pub gen_client_cert-keeps :
      (path : String) (s : Machine x.Random)
      → str_eq "./artifacts/client.csr" path ≡ false
      → str_eq "./artifacts/client.pem" path ≡ false
      → str_eq "./artifacts/client-key.pem" path ≡ false
      → (gen_client_cert x s).1.files path ≡ s.files path
  unfolding gen_client_cert
  gen_client_cert-keeps path s a b c = ground arith

  -- A chain file holds what is in the leaf's file, followed by what is in the intermediate's.
  abbrev pub Chained : String → String → Machine x.Random → Type 0
  Chained chain_file leaf_file s =
      (leaf : String) × (interm : String) × (s.files leaf_file ≡ some leaf)
      × (s.files "./artifacts/intermediate.pem" ≡ some interm)
      × (s.files chain_file ≡ some (leaf <> interm))

  abbrev pub BothChained : Machine x.Random → Type 0
  BothChained s =
      Chained "./artifacts/server-chain.pem" "./artifacts/server.pem" s
      × Chained "./artifacts/client-chain.pem" "./artifacts/client.pem" s

  abbrev server_chain : Tool x.Random (Unit {0})
  server_chain =
      build_server_cert_chain x "./artifacts/server.pem" ("./artifacts/intermediate.pem" ∷ [])

  abbrev client_chain : Tool x.Random (Unit {0})
  client_chain =
      build_client_cert_chain x "./artifacts/client.pem" ("./artifacts/intermediate.pem" ∷ [])

  server_chain-Chained :
      (s : Machine x.Random)
      → (server_chain s).0 ≡ returned tt
      → Chained "./artifacts/server-chain.pem" "./artifacts/server.pem" (server_chain s).1
  unfolding build_server_cert_chain
  server_chain-Chained s done =
      built (server_chain s).0 (server_chain s).1
        (build_chain_into-Joined x "./artifacts/server-chain.pem" "./artifacts/server.pem"
          "./artifacts/intermediate.pem" s)
        done
    where
      built :
          (o : Outcome (Unit {0})) (s' : Machine x.Random)
          → Joined x s "./artifacts/server-chain.pem"
              (s.files "./artifacts/server.pem")
              (s.files "./artifacts/intermediate.pem")
              (o, s')
          → o ≡ returned tt
          → Chained "./artifacts/server-chain.pem" "./artifacts/server.pem" s'
      built o s' (inl e) h = absurd (exit_not_returned o e h)
      built o s' (inr (leaf, interm, a, b, e, same)) h = (
        leaf,
        interm,
        ap (λ t. t.files "./artifacts/server.pem") same ∙ a,
        ap (λ t. t.files "./artifacts/intermediate.pem") same ∙ b,
        ap (λ t. t.files "./artifacts/server-chain.pem") same,
      )

  client_chain-BothChained :
      (s : Machine x.Random)
      → Chained "./artifacts/server-chain.pem" "./artifacts/server.pem" s
      → (client_chain s).0 ≡ returned tt
      → BothChained (client_chain s).1
  unfolding build_client_cert_chain
  client_chain-BothChained s (leaf, interm, a, b, chain) done =
      built (client_chain s).0 (client_chain s).1
        (build_chain_into-Joined x "./artifacts/client-chain.pem" "./artifacts/client.pem"
          "./artifacts/intermediate.pem" s)
        done
    where
      built :
          (o : Outcome (Unit {0})) (s' : Machine x.Random)
          → Joined x s "./artifacts/client-chain.pem"
              (s.files "./artifacts/client.pem")
              (s.files "./artifacts/intermediate.pem")
              (o, s')
          → o ≡ returned tt
          → BothChained s'
      built o s' (inl e) h = absurd (exit_not_returned o e h)
      built o s' (inr (own, ca, p, q, e, same)) h = (
        (
          leaf,
          interm,
          ap (λ t. t.files "./artifacts/server.pem") same ∙ a,
          ap (λ t. t.files "./artifacts/intermediate.pem") same ∙ b,
          ap (λ t. t.files "./artifacts/server-chain.pem") same ∙ chain,
        ),
        (
          own,
          ca,
          ap (λ t. t.files "./artifacts/client.pem") same ∙ p,
          ap (λ t. t.files "./artifacts/intermediate.pem") same ∙ q,
          ap (λ t. t.files "./artifacts/client-chain.pem") same,
        ),
      )

  gen_client_cert-Chained :
      (s : Machine x.Random)
      → Chained "./artifacts/server-chain.pem" "./artifacts/server.pem" s
      → Chained "./artifacts/server-chain.pem" "./artifacts/server.pem" (gen_client_cert x s).1
  gen_client_cert-Chained s (leaf, interm, a, b, chain) = (
    leaf,
    interm,
    gen_client_cert-keeps "./artifacts/server.pem" s refl refl refl ∙ a,
    gen_client_cert-keeps "./artifacts/intermediate.pem" s refl refl refl ∙ b,
    gen_client_cert-keeps "./artifacts/server-chain.pem" s refl refl refl ∙ chain,
  )

  -- After a run of the tool that returned, the chain of the server is its certificate followed by
  -- the intermediate one, as both files are then, and the same holds for the client.
  pub main-BothChained :
      (s : Machine x.Random) → (main x s).0 ≡ returned tt → BothChained (main x s).1
  unfolding main
  main-BothChained s done =
      bind_returned BothChained (gen_ca x) (λ _. from_interm) s tt done
        (λ _ _ done1.
          bind_returned BothChained (gen_interm_csr_and_cert x) (λ _. from_server) s1 tt done1
            (λ _ _ done2.
              bind_returned BothChained (gen_server_cert x) (λ _. from_chain) s2 tt done2
                (λ _ _ done3.
                  bind_returned BothChained server_chain (λ _. from_client) s3 tt done3
                    (λ _ made done4.
                      bind_returned BothChained (gen_client_cert x) (λ _. client_chain) s4 tt done4
                        (λ _ _ done5.
                          client_chain-BothChained (gen_client_cert x s4).1
                            (gen_client_cert-Chained s4 (server_chain-Chained s3 made)) done5)))))
    where
      s1 : Machine x.Random
      s1 = (gen_ca x s).1

      s2 : Machine x.Random
      s2 = (gen_interm_csr_and_cert x s1).1

      s3 : Machine x.Random
      s3 = (gen_server_cert x s2).1

      s4 : Machine x.Random
      s4 = (server_chain s3).1

      from_client : Tool x.Random (Unit {0})
      from_client = gen_client_cert x >>= λ _. client_chain

      from_chain : Tool x.Random (Unit {0})
      from_chain = server_chain >>= λ _. from_client

      from_server : Tool x.Random (Unit {0})
      from_server = gen_server_cert x >>= λ _. from_chain

      from_interm : Tool x.Random (Unit {0})
      from_interm = gen_interm_csr_and_cert x >>= λ _. from_server
