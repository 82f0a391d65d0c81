-- ===== src/Demo/Whole.antt =====
-- A whole run of the tool: every certificate that it leaves behind, and both chains.
use service_identity_provide.Base.{[], ◌∷◌, ◌≡◌, refl}
use service_identity_provide.Cluster.{◌>>=◌, returned}
use service_identity_provide.Demo.Machine.{Packages, Machine, Tool}
use service_identity_provide.Demo.Util.{build_server_cert_chain, build_client_cert_chain}
use service_identity_provide.Demo.Flows.{
  server_template, client_template, gen_ca, gen_interm_csr_and_cert, gen_server_cert,
  gen_client_cert, main,
}
use service_identity_provide.Cluster.Rules.{bind_returned}
use service_identity_provide.Demo.Run.{gen_client_cert-keeps, BothChained, main-BothChained}
use service_identity_provide.Demo.Root.{RootSigned, gen_ca-RootSigned, gen_interm-keeps, root-kept}
use service_identity_provide.Demo.Intermediate.{IntermSigned, gen_interm-Signed}
use service_identity_provide.Demo.Signed.{
  LeafSigned, KeepsCas, interm-kept, leaf-kept, gen_server_cert-Signed, gen_client_cert-Signed,
  gen_server_cert-keeps, server_chain-keeps, client_chain-keeps,
}

module _ (x : Packages) where
  abbrev server_chain : Tool x.Random (Unit {0})
  server_chain =
      build_server_cert_chain x "./artifacts/server.pem" ("./artifacts/intermediate.pem" ∷ [])

  abbrev client_chain : Tool x.Random (Unit {0})
  client_chain =
      build_client_cert_chain x "./artifacts/client.pem" ("./artifacts/intermediate.pem" ∷ [])

  server_chain-KeepsCas : (s : Machine x.Random) → KeepsCas x s (server_chain s).1
  server_chain-KeepsCas s = (
    (
      server_chain-keeps x "./artifacts/ca.pem" s refl,
      server_chain-keeps x "./artifacts/ca-key.pem" s refl,
    ),
    (
      server_chain-keeps x "./artifacts/intermediate.pem" s refl,
      server_chain-keeps x "./artifacts/intermediate-key.pem" s refl,
    ),
  )

  client_chain-KeepsCas : (s : Machine x.Random) → KeepsCas x s (client_chain s).1
  client_chain-KeepsCas s = (
    (
      client_chain-keeps x "./artifacts/ca.pem" s refl,
      client_chain-keeps x "./artifacts/ca-key.pem" s refl,
    ),
    (
      client_chain-keeps x "./artifacts/intermediate.pem" s refl,
      client_chain-keeps x "./artifacts/intermediate-key.pem" s refl,
    ),
  )

  server-KeepsCas : (s : Machine x.Random) → KeepsCas x s (gen_server_cert x s).1
  server-KeepsCas s = (
    (
      gen_server_cert-keeps x "./artifacts/ca.pem" s refl refl refl,
      gen_server_cert-keeps x "./artifacts/ca-key.pem" s refl refl refl,
    ),
    (
      gen_server_cert-keeps x "./artifacts/intermediate.pem" s refl refl refl,
      gen_server_cert-keeps x "./artifacts/intermediate-key.pem" s refl refl refl,
    ),
  )

  client-KeepsCas : (s : Machine x.Random) → KeepsCas x s (gen_client_cert x s).1
  client-KeepsCas s = (
    (
      gen_client_cert-keeps x "./artifacts/ca.pem" s refl refl refl,
      gen_client_cert-keeps x "./artifacts/ca-key.pem" s refl refl refl,
    ),
    (
      gen_client_cert-keeps x "./artifacts/intermediate.pem" s refl refl refl,
      gen_client_cert-keeps x "./artifacts/intermediate-key.pem" s refl refl refl,
    ),
  )

  -- The certificates of the two CAs.
  abbrev CasSigned : Machine x.Random → Type 0
  CasSigned s = RootSigned x s × IntermSigned x s

  cas-kept : (s s' : Machine x.Random) → KeepsCas x s s' → CasSigned s → CasSigned s'
  cas-kept s s' keeps (root, interm) =
      (root-kept x s s' keeps.0.0 root, interm-kept x s s' keeps interm)

  abbrev pub AllSigned : Machine x.Random → Type 0
  AllSigned s =
      CasSigned s
      × (LeafSigned x server_template "./artifacts/server.pem" s
          × LeafSigned x client_template "./artifacts/client.pem" s)

  -- The parts of the run, the last one first.
  abbrev from_client : Tool x.Random (Unit {0})
  from_client = gen_client_cert x >>= λ _. client_chain

  from_client-AllSigned :
      (s : Machine x.Random)
      → CasSigned s
      → LeafSigned x server_template "./artifacts/server.pem" s
      → (from_client s).0 ≡ returned tt
      → AllSigned (from_client s).1
  from_client-AllSigned s cas server done =
      bind_returned AllSigned (gen_client_cert x) (λ _. client_chain) s tt done
        (λ _ made _. (
          cas-kept s1 s2 (client_chain-KeepsCas s1) (cas-kept s s1 (client-KeepsCas s) cas),
          (
            leaf-kept x server_template "./artifacts/server.pem" s1 s2 (client_chain-KeepsCas s1)
                (client_chain-keeps x "./artifacts/server.pem" s1 refl)
                (leaf-kept x server_template "./artifacts/server.pem" s s1 (client-KeepsCas s)
                  (gen_client_cert-keeps x "./artifacts/server.pem" s refl refl refl) server),
            leaf-kept x client_template "./artifacts/client.pem" s1 s2 (client_chain-KeepsCas s1)
                (client_chain-keeps x "./artifacts/client.pem" s1 refl)
                (gen_client_cert-Signed x s made),
          ),
        ))
    where
      s1 : Machine x.Random
      s1 = (gen_client_cert x s).1

      s2 : Machine x.Random
      s2 = (client_chain s1).1

  abbrev from_chain : Tool x.Random (Unit {0})
  from_chain = server_chain >>= λ _. from_client

  from_chain-AllSigned :
      (s : Machine x.Random)
      → CasSigned s
      → LeafSigned x server_template "./artifacts/server.pem" s
      → (from_chain s).0 ≡ returned tt
      → AllSigned (from_chain s).1
  from_chain-AllSigned s cas server done =
      bind_returned AllSigned server_chain (λ _. from_client) s tt done
        (λ _ _ rest.
          from_client-AllSigned s1 (cas-kept s s1 (server_chain-KeepsCas s) cas)
            (leaf-kept x server_template "./artifacts/server.pem" s s1 (server_chain-KeepsCas s)
              (server_chain-keeps x "./artifacts/server.pem" s refl) server)
            rest)
    where
      s1 : Machine x.Random
      s1 = (server_chain s).1

  abbrev from_server : Tool x.Random (Unit {0})
  from_server = gen_server_cert x >>= λ _. from_chain

  from_server-AllSigned :
      (s : Machine x.Random)
      → CasSigned s
      → (from_server s).0 ≡ returned tt
      → AllSigned (from_server s).1
  from_server-AllSigned s cas done =
      bind_returned AllSigned (gen_server_cert x) (λ _. from_chain) s tt done
        (λ _ made rest.
          from_chain-AllSigned (gen_server_cert x s).1
            (cas-kept s (gen_server_cert x s).1 (server-KeepsCas s) cas)
            (gen_server_cert-Signed x s made) rest)

  main-AllSigned : (s : Machine x.Random) → (main x s).0 ≡ returned tt → AllSigned (main x s).1
  unfolding main
  main-AllSigned s done =
      bind_returned AllSigned (gen_ca x) (λ _. gen_interm_csr_and_cert x >>= λ _. from_server) s tt
        done
        (λ _ root rest.
          bind_returned AllSigned (gen_interm_csr_and_cert x) (λ _. from_server) (gen_ca x s).1 tt
            rest
            (λ _ interm rest'.
              from_server-AllSigned (gen_interm_csr_and_cert x (gen_ca x s).1).1
                (
                  root-kept x (gen_ca x s).1 (gen_interm_csr_and_cert x (gen_ca x s).1).1
                      (gen_interm-keeps x (gen_ca x s).1) (gen_ca-RootSigned x s root),
                  gen_interm-Signed x (gen_ca x s).1 interm,
                )
                rest'))

  -- After a run of the tool that returned, as the files are then: the root's certificate is signed
  -- with its own key, the intermediate one by what is parsed from the root's two files, and those of
  -- the server and the client by what is parsed from the intermediate's two files; and each of the
  -- two chains is its leaf followed by the intermediate certificate.
  pub main-Complete :
      (s : Machine x.Random)
      → (main x s).0 ≡ returned tt
      → AllSigned (main x s).1 × BothChained x (main x s).1
  main-Complete s done = (main-AllSigned s done, main-BothChained x s done)
