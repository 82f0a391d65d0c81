-- ===== src/Demo/Signed.antt =====
-- The certificates that a whole run of the tool leaves behind, and who signed them.
use service_identity_provide.Base.{
  ℕ, String, false, [], ◌∷◌, ◌≡◌, refl, arith, str_eq, ◌∙◌, sym, subst,
}
use service_identity_provide.Cluster.{returned}
use service_identity_provide.Demo.Machine.{Template, Packages, Machine}
use service_identity_provide.Demo.Util.{
  build_server_cert_chain, build_client_cert_chain, append_certs, build_chain_into,
}
use service_identity_provide.Demo.Flows.{
  interm_template, server_template, client_template, gen_server_cert, gen_client_cert,
}
use service_identity_provide.Demo.Intermediate.{IntermSigned}
use service_identity_provide.Demo.Issued.{SignedBy, Decoded, issue_leaf-Signed}

module _ (x : Packages) where
  pub gen_server_cert-Signed :
      (s : Machine x.Random)
      → (gen_server_cert x s).0 ≡ returned tt
      → SignedBy x server_template "./artifacts/intermediate.pem" "./artifacts/intermediate-key.pem"
          "./artifacts/server.pem"
          (gen_server_cert x s).1.files
  unfolding gen_server_cert
  gen_server_cert-Signed s done =
      issue_leaf-Signed x server_template "./artifacts/server.csr" "./artifacts/intermediate.pem"
        "./artifacts/intermediate-key.pem" "./artifacts/server.pem" "./artifacts/server-key.pem"
        refl refl refl refl refl s done

  pub gen_client_cert-Signed :
      (s : Machine x.Random)
      → (gen_client_cert x s).0 ≡ returned tt
      → SignedBy x client_template "./artifacts/intermediate.pem" "./artifacts/intermediate-key.pem"
          "./artifacts/client.pem"
          (gen_client_cert x s).1.files
  unfolding gen_client_cert
  gen_client_cert-Signed s done =
      issue_leaf-Signed x client_template "./artifacts/client.csr" "./artifacts/intermediate.pem"
        "./artifacts/intermediate-key.pem" "./artifacts/client.pem" "./artifacts/client-key.pem"
        refl refl refl refl refl s done

  -- What the later flows leave alone.
  pub gen_server_cert-keeps :
      (path : String) (s : Machine x.Random)
      → str_eq "./artifacts/server.csr" path ≡ false
      → str_eq "./artifacts/server.pem" path ≡ false
      → str_eq "./artifacts/server-key.pem" path ≡ false
      → (gen_server_cert x s).1.files path ≡ s.files path
  unfolding gen_server_cert
  gen_server_cert-keeps path s a b c = ground arith

  pub server_chain-keeps :
      (path : String) (s : Machine x.Random)
      → str_eq "./artifacts/server-chain.pem" path ≡ false
      → (build_server_cert_chain x "./artifacts/server.pem"
            ("./artifacts/intermediate.pem" ∷ [])
            s).1.files
          path
        ≡ s.files path
  unfolding build_server_cert_chain build_chain_into append_certs
  server_chain-keeps path s a = ground arith

  pub client_chain-keeps :
      (path : String) (s : Machine x.Random)
      → str_eq "./artifacts/client-chain.pem" path ≡ false
      → (build_client_cert_chain x "./artifacts/client.pem"
            ("./artifacts/intermediate.pem" ∷ [])
            s).1.files
          path
        ≡ s.files path
  unfolding build_client_cert_chain build_chain_into append_certs
  client_chain-keeps path s a = ground arith

  -- The server's and the client's certificates are signed by the intermediate CA.
  abbrev pub LeafSigned : (ℕ → Template) → String → Machine x.Random → Type 0
  LeafSigned template file s =
      SignedBy x template "./artifacts/intermediate.pem" "./artifacts/intermediate-key.pem" file
        s.files

  -- Files that are not written keep the signature.
  SignedBy-kept :
      (template : ℕ → Template) (ca_file ca_key_file cert_file : String) (s s' : Machine x.Random)
      → s'.files ca_file ≡ s.files ca_file
      → s'.files ca_key_file ≡ s.files ca_key_file
      → s'.files cert_file ≡ s.files cert_file
      → SignedBy x template ca_file ca_key_file cert_file s.files
      → SignedBy x template ca_file ca_key_file cert_file s'.files
  SignedBy-kept template ca_file ca_key_file cert_file s s' a b c
        (serial, subject, ca, ca_key, random, cert, cert_read, key_read, made, holds) =
      (
        serial,
        subject,
        ca,
        ca_key,
        random,
        cert,
        subst (λ t. Decoded x x.parse_certificate t ca) (sym a) cert_read,
        subst (λ t. Decoded x x.parse_key t ca_key) (sym b) key_read,
        made,
        c ∙ holds,
      )

  -- A part of the run that leaves the files of the intermediate CA, and of the root, alone.
  abbrev pub KeepsCas : Machine x.Random → Machine x.Random → Type 0
  KeepsCas s s' =
      ((s'.files "./artifacts/ca.pem" ≡ s.files "./artifacts/ca.pem")
        × (s'.files "./artifacts/ca-key.pem" ≡ s.files "./artifacts/ca-key.pem"))
      × ((s'.files "./artifacts/intermediate.pem" ≡ s.files "./artifacts/intermediate.pem")
          × (s'.files "./artifacts/intermediate-key.pem"
              ≡ s.files "./artifacts/intermediate-key.pem"))

  pub interm-kept : (s s' : Machine x.Random) → KeepsCas s s' → IntermSigned x s → IntermSigned x s'
  interm-kept s s' ((ca, ca_key), (interm, interm_key)) =
      SignedBy-kept interm_template "./artifacts/ca.pem" "./artifacts/ca-key.pem"
        "./artifacts/intermediate.pem" s s' ca ca_key interm

  pub leaf-kept :
      (template : ℕ → Template) (file : String) (s s' : Machine x.Random)
      → KeepsCas s s'
      → s'.files file ≡ s.files file
      → LeafSigned template file s
      → LeafSigned template file s'
  leaf-kept template file s s' ((ca, ca_key), (interm, interm_key)) same =
      SignedBy-kept template "./artifacts/intermediate.pem" "./artifacts/intermediate-key.pem" file
        s s' interm interm_key same
