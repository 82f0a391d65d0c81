-- ===== src/Services/Provider.antt =====
-- mtls-demo/service-provider/main.go: three servers. The names, the files and the network of the
-- host are a parameter.
use service_identity_provide.Base.{
  String, ◌<>◌, Bool, true, false, ◌&&◌, Option, none, some, List, [], ◌∷◌, ◌≡◌, if◌then◌else◌,
  str_eq,
}
use service_identity_provide.Objects.{Result, ok, err}
use service_identity_provide.Cluster.{Status, running, ended}
use service_identity_provide.Tls.{
  ClientAuth, no_client_cert, require_and_verify_client_cert, KeyPair, TlsConfig, zero_config,
}
use service_identity_provide.Services.Consumer.{Request}

pub record Host : Type 0 where
  pub read_file : String → Result String
  pub load_key_pair : String → String → Result KeyPair
  -- whether `SetTrustedProxies` takes its one address, and a server can listen at an address
  pub takes_proxies : Bool
  pub can_listen : String → Bool

-- A server with its one route. Without a configuration it speaks HTTP.
pub record Server : Type 0 where
  pub address : String
  pub path : String
  pub text : String
  pub config : Option TlsConfig

pub data Listener : Type 0 where
  idle closed : Listener
  serving : Server → Listener

-- The servers of the two goroutines and of `main`.
pub record Provider : Type 0 where
  pub plain : Listener
  pub tls : Listener
  pub mtls : Listener
  pub status : Status

abbrev pub plain_server : Server
plain_server = record { address = ":8080"; path = "/"; text = "no tls"; config = none }

abbrev pub tls_server : KeyPair → Server
tls_server pair = record {
  address = ":8088";
  path = "/tls";
  text = "tls";
  config = some (record zero_config { certificates = pair ∷ [] });
}

-- `tls.VersionTLS12` is 0x0303.
abbrev pub mtls_config : String → KeyPair → TlsConfig
mtls_config ca pair = record zero_config {
  client_cas = some ca;
  client_auth = require_and_verify_client_cert;
  min_version = 771;
  certificates = pair ∷ [];
}

abbrev pub mtls_server : String → KeyPair → Server
mtls_server ca pair = record {
  address = ":8089";
  path = "/mtls";
  text = "mtls";
  config = some (mtls_config ca pair);
}

module _ (h : Host) where
  -- `Run` and `RunTLS`: without the address there is no server, and the goroutine ends.
  abbrev pub listen : Bool → Server → Listener
  listen true server = serving server
  listen false server = closed

  abbrev pub start_plain : Bool → Listener
  start_plain true = listen (h.can_listen ":8080") plain_server
  start_plain false = closed

  -- The files are read by `RunTLS`, whose error ends the goroutine only.
  abbrev pub run_tls : Result KeyPair → Listener
  run_tls (ok pair) = listen (h.can_listen ":8088") (tls_server pair)
  run_tls (err e) = closed

  abbrev pub start_tls : Bool → Listener
  start_tls true = run_tls (h.load_key_pair "./keypair/tls.crt" "./keypair/tls.key")
  start_tls false = closed

  -- A process that `log.Fatalf` has ended: its other servers are gone with it.
  abbrev pub fatal : Provider → Provider
  fatal p = record { plain = closed; tls = closed; mtls = closed; status = ended 1 }

  abbrev pub serve_mtls : Bool → Server → Provider → Provider
  serve_mtls true server p = record p { mtls = serving server }
  serve_mtls false server p = fatal p

  abbrev pub with_key_pair : String → Result KeyPair → Provider → Provider
  with_key_pair ca (ok pair) p = serve_mtls (h.can_listen ":8089") (mtls_server ca pair) p
  with_key_pair ca (err e) p = fatal p

  abbrev pub with_ca : Result String → Provider → Provider
  with_ca (ok ca) p = with_key_pair ca (h.load_key_pair "./keypair/tls.crt" "./keypair/tls.key") p
  with_ca (err e) p = fatal p

  -- `main` from its files on.
  unfoldable pub start_mtls : Provider → Provider
  start_mtls p = with_ca (h.read_file "./ca/client-ca.pem") p

  -- `main` returns before it starts a goroutine if its proxies are not taken.
  abbrev pub begun : Bool → Provider
  begun true = record { plain = idle; tls = idle; mtls = idle; status = running }
  begun false = record { plain = closed; tls = closed; mtls = closed; status = ended 0 }

  abbrev pub begin : Provider
  begin = begun h.takes_proxies

  -- The goroutines and `main` start in any order, and a server may stop at any time with an error,
  -- which ends the process in `main` and is dropped in the others.
  pub data Step : Provider → Provider → Type 0 where
    plain_starts :
        (p : Provider)
        → p.status ≡ running
        → p.plain ≡ idle
        → Step p (record p { plain = start_plain h.takes_proxies })
    tls_starts :
        (p : Provider)
        → p.status ≡ running
        → p.tls ≡ idle
        → Step p (record p { tls = start_tls h.takes_proxies })
    mtls_starts : (p : Provider) → p.status ≡ running → p.mtls ≡ idle → Step p (start_mtls p)
    plain_stops :
        (p : Provider) (s : Server)
        → p.status ≡ running
        → p.plain ≡ serving s
        → Step p (record p { plain = closed })
    tls_stops :
        (p : Provider) (s : Server)
        → p.status ≡ running
        → p.tls ≡ serving s
        → Step p (record p { tls = closed })
    mtls_stops :
        (p : Provider) (s : Server) → p.status ≡ running → p.mtls ≡ serving s → Step p (fatal p)

  pub data Reach : Provider → Type 0 where
    begins : Reach begin
    moves : (p q : Provider) → Reach p → Step p q → Reach q

-- What crypto/x509 decides: whether a client with a pool of roots, given as text, accepts the
-- certificate of a server, and whether a pool verifies the certificate of a client.
pub record Checks : Type 0 where
  pub accepts_server : Option String → KeyPair → Bool
  pub verifies_client : Option String → KeyPair → Bool

module _ (x : Checks) where
  abbrev pub accepts_first : Option String → List KeyPair → Bool
  accepts_first roots [] = false
  accepts_first roots (pair ∷ _) = x.accepts_server roots pair

  abbrev pub verifies_first : Option String → List KeyPair → Bool
  verifies_first pool [] = false
  verifies_first pool (pair ∷ _) = x.verifies_client pool pair

  -- `ClientAuth` as crypto/tls documents it.
  abbrev pub admits : ClientAuth → Option String → List KeyPair → Bool
  admits no_client_cert pool pairs = true
  admits require_and_verify_client_cert pool pairs = verifies_first pool pairs

  abbrev pub connects : TlsConfig → TlsConfig → Bool
  connects c s =
      accepts_first c.root_cas s.certificates && admits s.client_auth s.client_cas c.certificates

  -- A connection, by the configurations of the client and the server: one to a server that speaks
  -- HTTP needs none, and a client without one has the zero value.
  abbrev pub handshake : Option TlsConfig → Option TlsConfig → Bool
  handshake _ none = true
  handshake none (some s) = connects zero_config s
  handshake (some c) (some s) = connects c s

  abbrev scheme : Option TlsConfig → String
  scheme none = "http"
  scheme (some _) = "https"

  -- The address that a request has to have for the route of a server.
  abbrev pub url_of : Server → String
  url_of s = scheme s.config <> ("://service-provider" <> (s.address <> s.path))

  abbrev pub answer : Listener → Request → Option String
  answer (serving s) r =
      if str_eq (url_of s) r.url && handshake r.config s.config then some s.text else none
  answer _ r = none

  abbrev or_else : Option String → Option String → Option String
  or_else (some text) later = some text
  or_else none later = later

  -- What a client gets back, if it gets a response.
  unfoldable pub respond : Provider → Request → Option String
  respond p r = or_else (answer p.plain r) (or_else (answer p.tls r) (answer p.mtls r))
