-- ===== src/Demo/Intermediate.antt =====
-- The certificate of the intermediate CA (`genIntermCSRandCert`).
use service_identity_provide.Base.{ℕ, String, false, ◌≡◌, refl, arith, str_eq, ◌∙◌, sym, subst}
use service_identity_provide.Cluster.{◌>>=◌, returned}
use service_identity_provide.Demo.Machine.{Packages, Machine, Tool, draw}
use service_identity_provide.Demo.Util.{
  generate_serial_number, parse_pem_cert, parse_ec_key, csr_to_file,
}
use service_identity_provide.Demo.Flows.{must, interm_template, gen_interm_csr_and_cert}
use service_identity_provide.Cluster.Rules.{bind_returned}
use service_identity_provide.Demo.Issued.{
  SignedBy, Decoded, sign, sign-Signed, read_cert-Decoded, read_key-Decoded,
}

module _ (x : Packages) where
  -- The request of the intermediate, and its certificate.
  abbrev interm_sign : x.Key → ℕ → x.Parsed → x.Key → Tool x.Random (Unit {0})
  interm_sign =
      sign x interm_template "./artifacts/intermediate.csr" "./artifacts/ca.pem"
        "./artifacts/ca-key.pem" "./artifacts/intermediate.pem" "./artifacts/intermediate-key.pem"

  abbrev interm_request : x.Key → ℕ → x.Parsed → x.Key → Tool x.Random (Unit {0})
  interm_request priv serial ca ca_key =
      must x (draw (x.create_request (interm_template serial) priv)) >>= λ csr.
      must x (csr_to_file x csr "./artifacts/intermediate.csr") >>= λ _.
      interm_sign priv serial ca ca_key

  abbrev pub IntermSigned : Machine x.Random → Type 0
  IntermSigned s =
      SignedBy x interm_template "./artifacts/ca.pem" "./artifacts/ca-key.pem"
        "./artifacts/intermediate.pem" s.files

  request-keeps :
      (priv : x.Key) (serial : ℕ) (file : String) (s : Machine x.Random)
      → (must x (draw (x.create_request (interm_template serial) priv)) s).1.files file
        ≡ s.files file
  request-keeps priv serial file s = ground arith

  csr-keeps :
      (csr file : String) (s : Machine x.Random)
      → str_eq "./artifacts/intermediate.csr" file ≡ false
      → (must x (csr_to_file x csr "./artifacts/intermediate.csr") s).1.files file ≡ s.files file
  unfolding csr_to_file
  csr-keeps csr file s differ = ground arith

  interm_request-Signed :
      (priv : x.Key) (serial : ℕ) (ca : x.Parsed) (ca_key : x.Key) (s : Machine x.Random)
      → Decoded x x.parse_certificate (s.files "./artifacts/ca.pem") ca
      → Decoded x x.parse_key (s.files "./artifacts/ca-key.pem") ca_key
      → (interm_request priv serial ca ca_key s).0 ≡ returned tt
      → IntermSigned (interm_request priv serial ca ca_key s).1
  interm_request-Signed priv serial ca ca_key s cert_read key_read done =
      bind_returned IntermSigned (must x (draw (x.create_request (interm_template serial) priv)))
        (λ csr. must x (csr_to_file x csr "./artifacts/intermediate.csr") >>= λ _.
          interm_sign priv serial ca ca_key)
        s tt done
        (λ csr _ written.
          bind_returned IntermSigned (must x (csr_to_file x csr "./artifacts/intermediate.csr"))
            (λ _. interm_sign priv serial ca ca_key) s1 tt written
            (λ _ _ signed.
              sign-Signed x interm_template "./artifacts/intermediate.csr" "./artifacts/ca.pem"
                "./artifacts/ca-key.pem" "./artifacts/intermediate.pem"
                "./artifacts/intermediate-key.pem" refl refl refl refl refl priv serial ca ca_key
                (must x (csr_to_file x csr "./artifacts/intermediate.csr") s1).1
                (subst (λ t. Decoded x x.parse_certificate t ca)
                  (sym (
                    csr-keeps csr "./artifacts/ca.pem" s1 refl
                    ∙ request-keeps priv serial "./artifacts/ca.pem" s))
                  cert_read)
                (subst (λ t. Decoded x x.parse_key t ca_key)
                  (sym (
                    csr-keeps csr "./artifacts/ca-key.pem" s1 refl
                    ∙ request-keeps priv serial "./artifacts/ca-key.pem" s))
                  key_read)
                signed))
    where
      s1 : Machine x.Random
      s1 = (must x (draw (x.create_request (interm_template serial) priv)) s).1

  abbrev interm_key : x.Key → ℕ → x.Parsed → Tool x.Random (Unit {0})
  interm_key priv serial ca =
      must x (parse_ec_key x "./artifacts/ca-key.pem") >>= interm_request priv serial ca

  abbrev interm_cert : x.Key → ℕ → Tool x.Random (Unit {0})
  interm_cert priv serial =
      must x (parse_pem_cert x "./artifacts/ca.pem") >>= interm_key priv serial

  interm_key-Signed :
      (priv : x.Key) (serial : ℕ) (ca : x.Parsed) (s : Machine x.Random)
      → Decoded x x.parse_certificate (s.files "./artifacts/ca.pem") ca
      → (interm_key priv serial ca s).0 ≡ returned tt
      → IntermSigned (interm_key priv serial ca s).1
  interm_key-Signed priv serial ca s cert_read done =
      bind_returned IntermSigned (must x (parse_ec_key x "./artifacts/ca-key.pem"))
        (interm_request priv serial ca) s tt done
        (λ ca_key got rest.
          let (key_read, same) = read_key-Decoded x "./artifacts/ca-key.pem" s ca_key got in
          interm_request-Signed priv serial ca ca_key
            (must x (parse_ec_key x "./artifacts/ca-key.pem") s).1
            (subst
              (λ (t : Machine x.Random).
                Decoded x x.parse_certificate (t.files "./artifacts/ca.pem") ca)
              (sym same) cert_read)
            (subst
              (λ (t : Machine x.Random).
                Decoded x x.parse_key (t.files "./artifacts/ca-key.pem") ca_key)
              (sym same) key_read)
            rest)

  interm_cert-Signed :
      (priv : x.Key) (serial : ℕ) (s : Machine x.Random)
      → (interm_cert priv serial s).0 ≡ returned tt
      → IntermSigned (interm_cert priv serial s).1
  interm_cert-Signed priv serial s done =
      bind_returned IntermSigned (must x (parse_pem_cert x "./artifacts/ca.pem"))
        (interm_key priv serial) s tt done
        (λ ca got rest.
          let (cert_read, same) = read_cert-Decoded x "./artifacts/ca.pem" s ca got in
          interm_key-Signed priv serial ca (must x (parse_pem_cert x "./artifacts/ca.pem") s).1
            (subst
              (λ (t : Machine x.Random).
                Decoded x x.parse_certificate (t.files "./artifacts/ca.pem") ca)
              (sym same) cert_read)
            rest)

  pub gen_interm-Signed :
      (s : Machine x.Random)
      → (gen_interm_csr_and_cert x s).0 ≡ returned tt
      → IntermSigned (gen_interm_csr_and_cert x s).1
  unfolding gen_interm_csr_and_cert
  gen_interm-Signed s done =
      bind_returned IntermSigned (must x (draw x.generate_key))
        (λ priv. must x (generate_serial_number x) >>= interm_cert priv) s tt done
        (λ priv _ numbered.
          bind_returned IntermSigned (must x (generate_serial_number x)) (interm_cert priv)
            (must x (draw x.generate_key) s).1 tt numbered
            (λ serial _ rest.
              interm_cert-Signed priv serial
                (must x (generate_serial_number x) (must x (draw x.generate_key) s).1).1 rest))
