-- ===== src/Services/Consumer.antt =====
-- mtls-demo/service-consumer/main.go. The network and the files are a parameter. The sleeps are
-- left out.
use service_identity_provide.Base.{ℕ, zero, suc, ◌-◌, String, Option, none, some, List, [], ◌∷◌}
use service_identity_provide.Objects.{Result, ok, err}
use service_identity_provide.Cluster.{
  Act, returned, outcome_of, fatal_outcome, ◌>>=◌, ◌>>◌, pure, try, or_fatal,
}
use service_identity_provide.Tls.{KeyPair, TlsConfig, zero_config}

-- A request with the configuration of its client, which `http.Get` has none of.
pub record Request : Type 0 where
  pub url : String
  pub config : Option TlsConfig

-- What the consumer uses of its host. Each call may change the state, also where it fails.
pub record Host : Type 1 where
  pub State : Type 0
  pub Body : Type 0
  pub read_file : String → State → Result String × State
  -- `tls.LoadX509KeyPair`
  pub load_key_pair : String → String → State → Result KeyPair × State
  -- the request, `io.ReadAll` of its body, and `Close`
  pub get : Request → State → Result Body × State
  pub read_all : Body → State → Result String × State
  pub close : Body → State → Result (Unit {0}) × State

-- The requests and the printed responses, newest first, and how many bodies were got and never
-- closed.
pub record Process (S : Type 0) : Type 0 where
  pub host : S
  pub requests : List Request
  pub printed : List String
  pub open_bodies : ℕ

module _ (h : Host) where
  abbrev pub Op : Type 0 → Type 0
  Op A = Act (Process h.State) A

  -- A call whose error is given to `log.Fatalf`.
  abbrev pub call : {A : Type 0} → (h.State → Result A × h.State) → Op A
  call f p = let (r, s) = f p.host in (fatal_outcome (outcome_of r), record p { host = s })

  abbrev pub opened : {A : Type 0} → Result A → ℕ → ℕ
  opened (ok _) n = suc n
  opened (err _) n = n

  abbrev pub closed : {A : Type 0} → Result A → ℕ → ℕ
  closed (ok _) n = n - 1
  closed (err _) n = n

  abbrev pub send : Request → Op h.Body
  send r p =
      let (reply, s) = h.get r p.host in
      (
        fatal_outcome (outcome_of reply),
        record p { host = s; requests = r ∷ p.requests; open_bodies = opened reply p.open_bodies },
      )

  abbrev pub close_body : h.Body → Op (Unit {0})
  close_body b p =
      let (reply, s) = h.close b p.host in
      (
        fatal_outcome (outcome_of reply),
        record p { host = s; open_bodies = closed reply p.open_bodies },
      )

  abbrev pub print : String → Op (Unit {0})
  print text p = (returned tt, record p { printed = text ∷ p.printed })

  abbrev pub plain_request : Request
  plain_request = record { url = "http://service-provider:8080/"; config = none }

  -- The body is closed when the function returns, which it does not after `log.Fatalf`.
  unfoldable pub http_no_tls : Op (Unit {0})
  http_no_tls = do r ← send plain_request; body ← call (h.read_all r); print body; close_body r

  -- A client that trusts the certificates of a text.
  abbrev pub tls_request : String → Request
  tls_request ca = record {
    url = "https://service-provider:8088/tls";
    config = some (record zero_config { root_cas = some ca });
  }

  -- What follows the files. The body is not closed.
  unfoldable pub fetch : Request → Op (Unit {0})
  fetch request = do resp ← send request; body ← call (h.read_all resp); print body

  unfoldable pub https_tls : Op (Unit {0})
  unfolding fetch
  https_tls = call (h.read_file "./ca/ca.pem") >>= λ ca. fetch (tls_request ca)

  abbrev pub mtls_request : String → KeyPair → Request
  mtls_request ca pair = record {
    url = "https://service-provider:8089/mtls";
    config = some (record zero_config { root_cas = some ca; certificates = pair ∷ [] });
  }

  unfoldable pub https_mtls : Op (Unit {0})
  unfolding fetch
  https_mtls = call (h.read_file "./ca/ca.pem") >>= λ ca.
      call (h.load_key_pair "./keypair/tls.crt" "./keypair/tls.key") >>= λ pair.
      fetch (mtls_request ca pair)

  -- One turn of the loop: the error of `httpNoTLS` is not looked at.
  unfoldable pub round : Op (Unit {0})
  unfolding http_no_tls https_tls https_mtls
  round = try http_no_tls >>= λ _. or_fatal https_tls >>= λ _. or_fatal https_mtls

  -- `main`, for so many turns of its endless loop.
  unfoldable pub rounds : ℕ → Op (Unit {0})
  unfolding round
  rounds zero = pure tt
  rounds (suc n) = round >>= λ _. rounds n
