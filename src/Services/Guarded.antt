-- ===== src/Services/Guarded.antt =====
-- What the provider serves in all the states that it can reach.
use service_identity_provide.Base.{
  String, Bool, true, false, ◌&&◌, Option, none, some, List, [], ◌∷◌, ◌≡◌, refl, subst, arith,
  if◌then◌else◌, str_eq,
}
use service_identity_provide.Objects.{Result, ok, err}
use service_identity_provide.Tls.{KeyPair, TlsConfig}
use service_identity_provide.Services.Consumer.{Request}
use service_identity_provide.Services.Provider.{
  Host, Server, Listener, idle, closed, serving, Provider, plain_server, tls_server, mtls_server,
  listen, start_plain, run_tls, start_tls, serve_mtls, with_key_pair, with_ca, start_mtls,
  mtls_config, accepts_first, verifies_first, handshake, begun, Step, plain_starts, tls_starts,
  mtls_starts, plain_stops, tls_stops, mtls_stops, Reach, begins, moves, Checks, answer, respond,
}

module _ (h : Host) where
  -- The server of a listener, if there is one, is of a kind.
  abbrev pub Only : (Server → Type 0) → Listener → Type 0
  Only P (serving s) = P s
  Only P idle = Unit
  Only P closed = Unit

  abbrev pub IsPlain : Server → Type 0
  IsPlain s = s ≡ plain_server

  abbrev pub IsTls : Server → Type 0
  IsTls s = (pair : KeyPair) × (s ≡ tls_server pair)

  -- Its pool of clients is the file of the client CA.
  abbrev pub IsMtls : Server → Type 0
  IsMtls s =
      (ca : String) × ((pair : KeyPair) × ((h.read_file "./ca/client-ca.pem" ≡ ok ca)
          × (s ≡ mtls_server ca pair)))

  abbrev pub Serves : Provider → Type 0
  Serves p = Only IsPlain p.plain × (Only IsTls p.tls × Only IsMtls p.mtls)

  listen-Only : (P : Server → Type 0) (b : Bool) (s : Server) → P s → Only P (listen h b s)
  listen-Only P true s good = good
  listen-Only P false s good = tt

  start_plain-Only : (b : Bool) → Only IsPlain (start_plain h b)
  start_plain-Only true = listen-Only IsPlain (h.can_listen ":8080") plain_server refl
  start_plain-Only false = tt

  run_tls-Only : (r : Result KeyPair) → Only IsTls (run_tls h r)
  run_tls-Only (ok pair) = listen-Only IsTls (h.can_listen ":8088") (tls_server pair) (pair, refl)
  run_tls-Only (err e) = tt

  start_tls-Only : (b : Bool) → Only IsTls (start_tls h b)
  start_tls-Only true = run_tls-Only (h.load_key_pair "./keypair/tls.crt" "./keypair/tls.key")
  start_tls-Only false = tt

  serve-Serves :
      (b : Bool) (s : Server) (p : Provider) → IsMtls s → Serves p → Serves (serve_mtls h b s p)
  serve-Serves true s p good (plain, (tls, mtls)) = (plain, (tls, good))
  serve-Serves false s p good inv = (tt, (tt, tt))

  pair-Serves :
      (ca : String) (r : Result KeyPair) (p : Provider)
      → h.read_file "./ca/client-ca.pem" ≡ ok ca
      → Serves p
      → Serves (with_key_pair h ca r p)
  pair-Serves ca (ok pair) p e inv =
      serve-Serves (h.can_listen ":8089") (mtls_server ca pair) p (ca, (pair, (e, refl))) inv
  pair-Serves ca (err x) p e inv = (tt, (tt, tt))

  ca-Serves :
      (r : Result String) (p : Provider)
      → h.read_file "./ca/client-ca.pem" ≡ r
      → Serves p
      → Serves (with_ca h r p)
  ca-Serves (ok ca) p e inv =
      pair-Serves ca (h.load_key_pair "./keypair/tls.crt" "./keypair/tls.key") p e inv
  ca-Serves (err x) p e inv = (tt, (tt, tt))

  start_mtls-Serves : (p : Provider) → Serves p → Serves (start_mtls h p)
  unfolding start_mtls
  start_mtls-Serves p inv = ca-Serves (h.read_file "./ca/client-ca.pem") p refl inv

  Step-Serves : (p q : Provider) → Step h p q → Serves p → Serves q
  Step-Serves p q (plain_starts _ on at) (plain, (tls, mtls)) =
      (start_plain-Only h.takes_proxies, (tls, mtls))
  Step-Serves p q (tls_starts _ on at) (plain, (tls, mtls)) =
      (plain, (start_tls-Only h.takes_proxies, mtls))
  Step-Serves p q (mtls_starts _ on at) inv = start_mtls-Serves p inv
  Step-Serves p q (plain_stops _ s on at) (plain, (tls, mtls)) = (tt, (tls, mtls))
  Step-Serves p q (tls_stops _ s on at) (plain, (tls, mtls)) = (plain, (tt, mtls))
  Step-Serves p q (mtls_stops _ s on at) inv = (tt, (tt, tt))

  begun-Serves : (b : Bool) → Serves (begun h b)
  begun-Serves true = (tt, (tt, tt))
  begun-Serves false = (tt, (tt, tt))

  Reach-Serves : (p : Provider) → Reach h p → Serves p
  Reach-Serves p begins = begun-Serves h.takes_proxies
  Reach-Serves p (moves q _ reached step) = Step-Serves q p step (Reach-Serves q reached)

module _ (h : Host) (x : Checks) where
  abbrev pub mtls_url : String
  mtls_url = "https://service-provider:8089/mtls"

  -- The first certificate of a client, if it has one, is verified by the file of the client CA.
  abbrev pub FirstVerified : List KeyPair → Type 0
  FirstVerified [] = ⊥
  FirstVerified (pair ∷ _) =
      (ca : String) × ((h.read_file "./ca/client-ca.pem" ≡ ok ca)
        × (x.verifies_client (some ca) pair ≡ true))

  abbrev pub Verified : Option TlsConfig → Type 0
  Verified none = ⊥
  Verified (some c) = FirstVerified c.certificates

  -- The other servers have other addresses.
  not_plain :
      (l : Listener) (r : Request) → Only h (IsPlain h) l → r.url ≡ mtls_url → answer x l r ≡ none
  not_plain idle r good e = refl
  not_plain closed r good e = refl
  not_plain (serving s) r good e = rw (good, e) refl

  not_tls :
      (l : Listener) (r : Request) → Only h (IsTls h) l → r.url ≡ mtls_url → answer x l r ≡ none
  not_tls idle r good e = refl
  not_tls closed r good e = refl
  not_tls (serving s) r (pair, good) e = rw (good, e) refl

  -- A response of the server under the test on the address.
  served-Verified :
      (url : Bool) (ca : String) (pair : KeyPair) (config : Option TlsConfig) (text : String)
      → h.read_file "./ca/client-ca.pem" ≡ ok ca
      → (if url && handshake x config (some (mtls_config ca pair)) then some "mtls" else none)
        ≡ some text
      → (text ≡ "mtls") × Verified config
  served-Verified url ca pair none text e a = ground arith
  served-Verified url ca pair (some c) text e a = by_certificates c.certificates a
    where
      by_certificates :
          (certificates : List KeyPair)
          → (if url
                && (accepts_first x c.root_cas (pair ∷ [])
                    && verifies_first x (some ca) certificates)
              then some "mtls"
              else none)
            ≡ some text
          → (text ≡ "mtls") × FirstVerified certificates
      by_certificates [] a = ground arith
      by_certificates (client ∷ _) a = ((ground arith), (ca, (e, (ground arith))))

  mtls-Verified :
      (l : Listener) (r : Request) (text : String)
      → Only h (IsMtls h) l
      → answer x l r ≡ some text
      → (text ≡ "mtls") × Verified r.config
  mtls-Verified idle r text good a = cc
  mtls-Verified closed r text good a = cc
  mtls-Verified (serving s) r text (ca, (pair, (e, good))) a =
      served-Verified (str_eq mtls_url r.url) ca pair r.config text e
        (subst (λ s. answer x (serving s) r ≡ some text) good a)

  -- In every state that the provider can reach, whatever has started or stopped before, a response
  -- to a request for https://service-provider:8089/mtls is the text "mtls", and it goes to a client
  -- whose certificate is verified by the file of the client CA.
  pub respond-Verified :
      (p : Provider) (r : Request) (text : String)
      → Reach h p
      → r.url ≡ mtls_url
      → respond x p r ≡ some text
      → (text ≡ "mtls") × Verified r.config
  unfolding respond
  respond-Verified p r text reached e =
      let (plain, (tls, mtls)) = Reach-Serves h p reached in
      rw (not_plain p.plain r plain e, not_tls p.tls r tls e) (mtls-Verified p.mtls r text mtls)
