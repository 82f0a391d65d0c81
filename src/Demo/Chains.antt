-- ===== src/Demo/Chains.antt =====
-- What the certificate chains hold.
use service_identity_provide.Base.{
  String, ◌<>◌, Bool, true, false, Option, none, some, List, [], ◌∷◌, ◌≡◌, ◌⊎◌, inl, inr, refl, ◌∙◌,
  ap, if◌then◌else◌,
}
use service_identity_provide.Cluster.{◌>>=◌, Outcome, returned, exited}
use service_identity_provide.Demo.Machine.{Packages, Machine, set_file, put_file}
use service_identity_provide.Demo.Util.{content_of, append_certs, write_or_fatal, build_chain_into}

-- The chain of a leaf with one intermediate, of which the text may be missing.
abbrev pub chain_with : String → Option String → Option String
chain_with leaf none = none
chain_with leaf (some text) = some (leaf <> text)

-- The chain of a leaf with the last of some files.
abbrev pub chain_with_last :
    String → (String → Option String) → String → List String → Option String
chain_with_last leaf content file [] = chain_with leaf (content file)
chain_with_last leaf content file (next ∷ rest) = chain_with_last leaf content next rest

-- The chain that the tool builds: that of the last intermediate, or nothing at all.
abbrev pub built_chain : String → (String → Option String) → List String → Option String
built_chain leaf content [] = some ""
built_chain leaf content (file ∷ files) = chain_with_last leaf content file files

chain_with-some :
    (leaf text : String) (o : Option String)
    → chain_with leaf o ≡ some text
    → (end : String) × (o ≡ some end) × (text ≡ leaf <> end)
chain_with-some leaf text none h = cc
chain_with-some leaf text (some end) h = (end, refl, same h)
  where
    same : some (leaf <> end) ≡ some text → text ≡ leaf <> end
    same e = cc

module _ (x : Packages) where
  -- The process ends with status 1, or goes on with the text; no file has changed.
  abbrev pub Reads : Machine x.Random → Option String → Outcome String × Machine x.Random → Type 0
  Reads s chain (o, s') =
      ((o ≡ exited 1) ⊎ ((text : String) × (chain ≡ some text) × (o ≡ returned text))) × (s' ≡ s)

  -- One turn of the loop.
  turn-Reads :
      (leaf : String) (files : List String) (s : Machine x.Random)
      (expected : Option String → Option String) (b : Bool) (o : Option String)
      → ((text : String)
          → Reads s (expected (some text)) (append_certs x leaf (leaf <> text) files s))
      → Reads s (expected o) (
          (◌>>=◌ (λ _. (content_of x b o, s)) (λ text. append_certs x leaf (leaf <> text) files)) s)
  turn-Reads leaf files s expected true (some text) later = later text
  turn-Reads leaf files s expected true none later = (inl refl, refl)
  turn-Reads leaf files s expected false (some text) later = (inl refl, refl)
  turn-Reads leaf files s expected false none later = (inl refl, refl)

  -- The loop: of all intermediates the last one counts.
  append_certs-Reads :
      (leaf chain file : String) (files : List String) (s : Machine x.Random)
      → Reads s
          (chain_with_last leaf s.files file files)
          (append_certs x leaf chain (file ∷ files) s)
  unfolding append_certs
  append_certs-Reads leaf chain file [] s =
      turn-Reads leaf [] s (chain_with leaf) (x.can_read file) (s.files file)
        (λ text. (inr (leaf <> text, refl, refl), refl))
  append_certs-Reads leaf chain file (next ∷ rest) s =
      turn-Reads leaf (next ∷ rest) s (λ _. chain_with_last leaf s.files next rest)
        (x.can_read file) (s.files file)
        (λ text. append_certs-Reads leaf (leaf <> text) next rest s)

  built-Reads :
      (leaf : String) (files : List String) (s : Machine x.Random)
      → Reads s (built_chain leaf s.files files) (append_certs x leaf "" files s)
  unfolding append_certs
  built-Reads leaf [] s = (inr ("", refl, refl), refl)
  built-Reads leaf (file ∷ files) s = append_certs-Reads leaf "" file files s

  -- The write of the chain: it is in its file, or the write failed and the process ended with
  -- status 1. No other file has changed.
  abbrev pub Written :
      Machine x.Random → String → String → Outcome (Unit {0}) × Machine x.Random → Type 0
  Written s chain_file text (o, s') =
      ((o ≡ returned tt) × (s' ≡ record s { files = set_file chain_file text s.files }))
      ⊎ ((o ≡ exited 1)
          × (s' ≡ record s {
            files =
                put_file chain_file (x.failed_write chain_file text (s.files chain_file)) s.files;
          }))

  -- A file cannot be read, the process ends with status 1 and every file is as before; or the chain
  -- of the leaf is written.
  abbrev pub Built :
      Machine x.Random
      → String
      → Option String
      → (String → Option String)
      → Outcome (Unit {0}) × Machine x.Random
      → Type 0
  Built s chain_file leaf chain r =
      ((r.0 ≡ exited 1) × (r.1 ≡ s))
      ⊎ ((start : String) × (text : String) × (leaf ≡ some start)
          × (chain start ≡ some text)
          × Written s chain_file text r)

  write-Written :
      (s : Machine x.Random) (chain_file text : String)
      → Written s chain_file text (write_or_fatal x chain_file text s)
  write-Written s chain_file text = write (x.can_write chain_file)
    where
      write :
          (b : Bool)
          → Written s chain_file text (
              if b then (returned tt, record s { files = set_file chain_file text s.files }) else (
                exited 1,
                record s {
                  files =
                      put_file chain_file
                        (x.failed_write chain_file text (s.files chain_file))
                        s.files;
                },
              ))
      write true = inl (refl, refl)
      write false = inr (refl, refl)

  written-Built :
      (s : Machine x.Random) (chain_file start : String) (chain : String → Option String)
      (r : Outcome String × Machine x.Random)
      → Reads s (chain start) r
      → Built s chain_file (some start) chain ((◌>>=◌ (λ _. r) (write_or_fatal x chain_file)) s)
  written-Built s chain_file start chain r (inl e, same) =
      rw (pair r.0 r.1 e same) (inl (refl, refl))
    where
      pair :
          (o : Outcome String) (s' : Machine x.Random)
          → o ≡ exited 1
          → s' ≡ s
          → ◌≡◌ {A = Outcome String × Machine x.Random} (o, s') (exited 1, s)
      pair o s' a b i = (a i, b i)
  written-Built s chain_file start chain r (inr (text, eq, e), same) =
      rw (pair r.0 r.1 e same) (inr (start, text, refl, eq, write-Written s chain_file text))
    where
      pair :
          (o : Outcome String) (s' : Machine x.Random)
          → o ≡ returned text
          → s' ≡ s
          → ◌≡◌ {A = Outcome String × Machine x.Random} (o, s') (returned text, s)
      pair o s' a b i = (a i, b i)

  -- However many intermediates are given, the process ends with status 1 and every file is as
  -- before, or it gets to the write of the chain: the leaf followed by the last intermediate only,
  -- and the empty text without any. Then the chain is in its file, or the write failed and the
  -- process ends with status 1; no other file has changed.
  pub build_chain_into-Built :
      (chain_file cert : String) (files : List String) (s : Machine x.Random)
      → Built s chain_file
          (s.files cert)
          (λ leaf. built_chain leaf s.files files)
          (build_chain_into x chain_file cert files s)
  unfolding build_chain_into
  build_chain_into-Built chain_file cert files s = turn (x.can_read cert) (s.files cert)
    where
      chain : String → Option String
      chain leaf = built_chain leaf s.files files

      turn :
          (b : Bool) (o : Option String)
          → Built s chain_file o chain (
              (◌>>=◌
                  (λ _. (content_of x b o, s))
                  (λ leaf. append_certs x leaf "" files >>= write_or_fatal x chain_file))
                s)
      turn true (some start) =
          written-Built s chain_file start chain (append_certs x start "" files s)
            (built-Reads start files s)
      turn true none = inl (refl, refl)
      turn false (some start) = inl (refl, refl)
      turn false none = inl (refl, refl)

  -- With one intermediate: the process ends with status 1, or both texts are in the chain's file.
  abbrev pub Joined :
      Machine x.Random
      → String
      → Option String
      → Option String
      → Outcome (Unit {0}) × Machine x.Random
      → Type 0
  Joined s chain_file leaf last (o, s') =
      (o ≡ exited 1)
      ⊎ ((start : String) × (end : String) × (leaf ≡ some start)
          × (last ≡ some end)
          × (o ≡ returned tt)
          × (s' ≡ record s { files = set_file chain_file (start <> end) s.files }))

  pub build_chain_into-Joined :
      (chain_file cert interm : String) (s : Machine x.Random)
      → Joined s chain_file
          (s.files cert)
          (s.files interm)
          (build_chain_into x chain_file cert (interm ∷ []) s)
  build_chain_into-Joined chain_file cert interm s =
      joined (build_chain_into x chain_file cert (interm ∷ []) s)
        (build_chain_into-Built chain_file cert (interm ∷ []) s)
    where
      joined :
          (r : Outcome (Unit {0}) × Machine x.Random)
          → Built s chain_file (s.files cert) (λ leaf. chain_with leaf (s.files interm)) r
          → Joined s chain_file (s.files cert) (s.files interm) r
      joined r (inl (e, same)) = inl e
      joined r (inr (start, text, a, b, inr (e, same))) = inl e
      joined r (inr (start, text, a, b, inl (e, same))) =
          let (end, c, d) = chain_with-some start text (s.files interm) b in
          inr (
            start,
            end,
            a,
            c,
            e,
            same ∙ ap (λ t. record s { files = set_file chain_file t s.files }) d,
          )
