-- ===== src/Demo/Issued.antt =====
-- A certificate of the tool is signed with the key and the certificate that it has read.
use service_identity_provide.Base.{
  ℕ, String, false, Option, none, some, ◌≡◌, arith, ap, ◌∙◌, sym, subst, str_eq, eq_refl,
}
use service_identity_provide.Objects.{Result, ok}
use service_identity_provide.Cluster.{◌>>=◌, returned}
use service_identity_provide.Demo.Machine.{Template, Packages, Machine, Tool, draw}
use service_identity_provide.Demo.Util.{
  generate_serial_number, parse_pem_cert, parse_ec_key, cert_to_file, key_to_file, csr_to_file,
}
use service_identity_provide.Demo.Flows.{must, must_or_panic}
use service_identity_provide.Cluster.Rules.{bind_returned}

module _ (x : Packages) where
  -- What a PEM text, which may be missing, is parsed to.
  abbrev pub Decoded : {A : Type 0} → (String → Result A) → Option String → A → Type 0
  Decoded parse none a = ⊥
  Decoded parse (some text) a = elim (x.pem_decode text) [
    | none ↦ ⊥
    | some bytes ↦ parse bytes ≡ ok a
  ]

  pub read_cert-Decoded :
      (file : String) (s : Machine x.Random) (ca : x.Parsed)
      → (must x (parse_pem_cert x file) s).0 ≡ returned ca
      → Decoded x.parse_certificate (s.files file) ca × ((must x (parse_pem_cert x file) s).1 ≡ s)
  unfolding parse_pem_cert
  read_cert-Decoded file s ca h = ground arith

  pub read_key-Decoded :
      (file : String) (s : Machine x.Random) (key : x.Key)
      → (must x (parse_ec_key x file) s).0 ≡ returned key
      → Decoded x.parse_key (s.files file) key × ((must x (parse_ec_key x file) s).1 ≡ s)
  unfolding parse_ec_key
  read_key-Decoded file s key h = ground arith

  drawn_lem :
      {A : Type 0} (f : x.Random → Result A × x.Random) (s : Machine x.Random) (a : A)
      → (must_or_panic x (draw f) s).0 ≡ returned a
      → (f s.random).0 ≡ ok a
  drawn_lem f s a h = ground arith

  drawn-files :
      {A : Type 0} (f : x.Random → Result A × x.Random) (s : Machine x.Random)
      → (must_or_panic x (draw f) s).1.files ≡ s.files
  drawn-files f s = ground arith

  pub must_drawn_lem :
      {A : Type 0} (f : x.Random → Result A × x.Random) (s : Machine x.Random) (a : A)
      → (must x (draw f) s).0 ≡ returned a
      → (f s.random).0 ≡ ok a
  must_drawn_lem f s a h = ground arith

  -- The end of a flow: the certificate and the key are written.
  abbrev pub write_both : String → x.Key → String → String → Tool x.Random (Unit {0})
  write_both cert key cert_file key_file =
      must x (cert_to_file x cert cert_file) >>= λ _. must x (key_to_file x key key_file)

  abbrev pub HoldsCert : String → Option String → Type 0
  HoldsCert cert text = text ≡ some (x.pem_encode "CERTIFICATE" cert)

  pub write_both-written :
      (cert : String) (key : x.Key) (cert_file key_file other : String) (s : Machine x.Random)
      → str_eq cert_file other ≡ false
      → str_eq key_file other ≡ false
      → str_eq key_file cert_file ≡ false
      → (write_both cert key cert_file key_file s).0 ≡ returned tt
      → let s' = (write_both cert key cert_file key_file s).1 in
        HoldsCert cert (s'.files cert_file) × (s'.files other ≡ s.files other)
  unfolding cert_to_file key_to_file
  write_both-written cert key cert_file key_file other s a b c h = ground (arith, eq_refl cert_file)

  -- The certificate in a file was made from a template by the holder of a key, for a certificate;
  -- both are what is parsed from two other files.
  abbrev pub SignedBy :
      (ℕ → Template) → String → String → String → (String → Option String) → Type 0
  SignedBy template ca_file ca_key_file cert_file files =
      (serial : ℕ) × (subject : x.Key) × (ca : x.Parsed) × (ca_key : x.Key) × (random : x.Random)
      × (cert : String) × Decoded x.parse_certificate (files ca_file) ca
      × Decoded x.parse_key (files ca_key_file) ca_key
      × ((x.create_certificate (template serial) (some ca) subject ca_key random).0 ≡ ok cert)
      × HoldsCert cert (files cert_file)

  module _ (template : ℕ → Template)
      (csr_file ca_file ca_key_file cert_file key_file : String) where
    -- The flow that `genServerCert` and `genClientCert` share, its last part first.
    abbrev pub sign : x.Key → ℕ → x.Parsed → x.Key → Tool x.Random (Unit {0})
    sign priv serial ca ca_key =
        must_or_panic x (draw (x.create_certificate (template serial) (some ca) priv ca_key))
        >>= λ cert. write_both cert priv cert_file key_file

    abbrev read_key : x.Key → ℕ → x.Parsed → Tool x.Random (Unit {0})
    read_key priv serial ca = must x (parse_ec_key x ca_key_file) >>= sign priv serial ca

    abbrev read_cert : x.Key → ℕ → Tool x.Random (Unit {0})
    read_cert priv serial = must x (parse_pem_cert x ca_file) >>= read_key priv serial

    abbrev write_request : x.Key → ℕ → String → Tool x.Random (Unit {0})
    write_request priv serial csr =
        must x (csr_to_file x csr csr_file) >>= λ _. read_cert priv serial

    abbrev request : x.Key → ℕ → Tool x.Random (Unit {0})
    request priv serial =
        must x (draw (x.create_request (template serial) priv)) >>= write_request priv serial

    abbrev number : x.Key → Tool x.Random (Unit {0})
    number priv = must x (generate_serial_number x) >>= request priv

    abbrev pub issue_leaf : Tool x.Random (Unit {0})
    issue_leaf = must x (draw x.generate_key) >>= number

    abbrev pub Signed : Machine x.Random → Type 0
    Signed s = SignedBy template ca_file ca_key_file cert_file s.files

    module _ (a : str_eq cert_file ca_file ≡ false) (b : str_eq key_file ca_file ≡ false)
        (d : str_eq cert_file ca_key_file ≡ false) (e : str_eq key_file ca_key_file ≡ false)
        (f : str_eq key_file cert_file ≡ false) where
      pub sign-Signed :
          (priv : x.Key) (serial : ℕ) (ca : x.Parsed) (ca_key : x.Key) (s : Machine x.Random)
          → Decoded x.parse_certificate (s.files ca_file) ca
          → Decoded x.parse_key (s.files ca_key_file) ca_key
          → (sign priv serial ca ca_key s).0 ≡ returned tt
          → Signed (sign priv serial ca ca_key s).1
      sign-Signed priv serial ca ca_key s cert_read key_read done =
          bind_returned Signed (must_or_panic x (draw made))
            (λ cert. write_both cert priv cert_file key_file) s tt done
            (λ cert drawn written.
              let ca_lem =
                write_both-written cert priv cert_file key_file ca_file s1 a b f written in
              let key_lem =
                write_both-written cert priv cert_file key_file ca_key_file s1 d e f written in
              (
                serial,
                priv,
                ca,
                ca_key,
                s.random,
                cert,
                subst (λ t. Decoded x.parse_certificate t ca)
                    (sym (ca_lem.1 ∙ ap (λ files. files ca_file) (drawn-files made s))) cert_read,
                subst (λ t. Decoded x.parse_key t ca_key)
                    (sym (key_lem.1 ∙ ap (λ files. files ca_key_file) (drawn-files made s)))
                    key_read,
                drawn_lem made s cert drawn,
                ca_lem.0,
              ))
        where
          made : x.Random → Result String × x.Random
          made = x.create_certificate (template serial) (some ca) priv ca_key

          s1 : Machine x.Random
          s1 = (must_or_panic x (draw made) s).1

      read_key-Signed :
          (priv : x.Key) (serial : ℕ) (ca : x.Parsed) (s : Machine x.Random)
          → Decoded x.parse_certificate (s.files ca_file) ca
          → (read_key priv serial ca s).0 ≡ returned tt
          → Signed (read_key priv serial ca s).1
      read_key-Signed priv serial ca s cert_read done =
          bind_returned Signed (must x (parse_ec_key x ca_key_file)) (sign priv serial ca) s tt done
            (λ ca_key got signed.
              let (key_read, same) = read_key-Decoded ca_key_file s ca_key got in
              sign-Signed priv serial ca ca_key s1
                (subst (λ (t : Machine x.Random). Decoded x.parse_certificate (t.files ca_file) ca)
                  (sym same) cert_read)
                (subst (λ (t : Machine x.Random). Decoded x.parse_key (t.files ca_key_file) ca_key)
                  (sym same) key_read)
                signed)
        where
          s1 : Machine x.Random
          s1 = (must x (parse_ec_key x ca_key_file) s).1

      read_cert-Signed :
          (priv : x.Key) (serial : ℕ) (s : Machine x.Random)
          → (read_cert priv serial s).0 ≡ returned tt
          → Signed (read_cert priv serial s).1
      read_cert-Signed priv serial s done =
          bind_returned Signed (must x (parse_pem_cert x ca_file)) (read_key priv serial) s tt done
            (λ ca got rest.
              let (cert_read, same) = read_cert-Decoded ca_file s ca got in
              read_key-Signed priv serial ca (must x (parse_pem_cert x ca_file) s).1
                (subst (λ (t : Machine x.Random). Decoded x.parse_certificate (t.files ca_file) ca)
                  (sym same) cert_read)
                rest)

      pub issue_leaf-Signed :
          (s : Machine x.Random) → (issue_leaf s).0 ≡ returned tt → Signed (issue_leaf s).1
      issue_leaf-Signed s done =
          bind_returned Signed (must x (draw x.generate_key)) number s tt done (λ priv _ numbered.
            bind_returned Signed (must x (generate_serial_number x)) (request priv) (keyed s) tt
              numbered
              (λ serial _ requested.
                bind_returned Signed (must x (draw (x.create_request (template serial) priv)))
                  (write_request priv serial) (numbered_from s) tt requested
                  (λ csr _ made.
                    bind_returned Signed (must x (csr_to_file x csr csr_file))
                      (λ _. read_cert priv serial) (requested_from s priv serial) tt made
                      (λ _ _ rest. read_cert-Signed priv serial _ rest))))
        where
          keyed : Machine x.Random → Machine x.Random
          keyed s = (must x (draw x.generate_key) s).1

          numbered_from : Machine x.Random → Machine x.Random
          numbered_from s = (must x (generate_serial_number x) (keyed s)).1

          requested_from : Machine x.Random → x.Key → ℕ → Machine x.Random
          requested_from s priv serial =
              (must x (draw (x.create_request (template serial) priv)) (numbered_from s)).1
