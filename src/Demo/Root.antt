-- ===== src/Demo/Root.antt =====
-- The certificate of the root CA (`genCA`).
use service_identity_provide.Base.{ℕ, String, none, ◌≡◌, refl, arith, ◌∙◌}
use service_identity_provide.Objects.{ok}
use service_identity_provide.Cluster.{◌>>=◌, returned}
use service_identity_provide.Demo.Machine.{Packages, Machine, Tool, draw}
use service_identity_provide.Demo.Util.{
  generate_serial_number, parse_pem_cert, parse_ec_key, csr_to_file, cert_to_file, key_to_file,
}
use service_identity_provide.Demo.Flows.{must, root_template, gen_ca, gen_interm_csr_and_cert}
use service_identity_provide.Cluster.Rules.{bind_returned}
use service_identity_provide.Demo.Issued.{HoldsCert, must_drawn_lem, write_both, write_both-written}

module _ (x : Packages) where
  -- The root's certificate is signed with its own key.
  abbrev pub RootSigned : Machine x.Random → Type 0
  RootSigned s =
      (serial : ℕ) × (key : x.Key) × (random : x.Random) × (cert : String) × ((x.create_certificate
          (root_template serial) none key key random).0
        ≡ ok cert)
      × HoldsCert x cert (s.files "./artifacts/ca.pem")

  pub gen_ca-RootSigned :
      (s : Machine x.Random) → (gen_ca x s).0 ≡ returned tt → RootSigned (gen_ca x s).1
  unfolding gen_ca
  gen_ca-RootSigned s done =
      bind_returned RootSigned (must x (draw x.generate_key))
        (λ priv. must x (generate_serial_number x) >>= sign priv) s tt done
        (λ priv _ numbered.
          bind_returned RootSigned (must x (generate_serial_number x)) (sign priv) s1 tt numbered
            (λ serial _ signed.
              bind_returned RootSigned
                (must x (draw (x.create_certificate (root_template serial) none priv priv)))
                (write priv) s2 tt signed
                (λ cert made written. (
                  serial,
                  priv,
                  s2.random,
                  cert,
                  must_drawn_lem x (x.create_certificate (root_template serial) none priv priv) s2
                      cert made,
                  (write_both-written x cert priv "./artifacts/ca.pem" "./artifacts/ca-key.pem" ""
                      (must x (draw (x.create_certificate (root_template serial) none priv priv))
                        s2).1
                      refl refl refl written).0,
                ))))
    where
      s1 : Machine x.Random
      s1 = (must x (draw x.generate_key) s).1

      s2 : Machine x.Random
      s2 = (must x (generate_serial_number x) s1).1

      write : x.Key → String → Tool x.Random (Unit {0})
      write priv cert = write_both x cert priv "./artifacts/ca.pem" "./artifacts/ca-key.pem"

      sign : x.Key → ℕ → Tool x.Random (Unit {0})
      sign priv serial =
          must x (draw (x.create_certificate (root_template serial) none priv priv)) >>= write priv

  pub gen_interm-keeps :
      (s : Machine x.Random)
      → (gen_interm_csr_and_cert x s).1.files "./artifacts/ca.pem" ≡ s.files "./artifacts/ca.pem"
  unfolding gen_interm_csr_and_cert generate_serial_number parse_pem_cert parse_ec_key csr_to_file
      cert_to_file key_to_file
  gen_interm-keeps s = ground arith

  pub root-kept :
      (s s' : Machine x.Random)
      → s'.files "./artifacts/ca.pem" ≡ s.files "./artifacts/ca.pem"
      → RootSigned s
      → RootSigned s'
  root-kept s s' same (serial, key, random, cert, made, holds) =
      (serial, key, random, cert, made, same ∙ holds)
