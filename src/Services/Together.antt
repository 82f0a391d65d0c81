-- ===== src/Services/Together.antt =====
-- The consumer with the provider.
use service_identity_provide.Base.{
  ℕ, zero, suc, String, true, Option, none, some, List, ◌∷◌, ◌≡◌, refl, ap, ◌∙◌, subst, arith,
}
use service_identity_provide.Objects.{Result, ok, err, other}
use service_identity_provide.Cluster.{Outcome, returned, failed, panicked, exited, running, ◌>>=◌}
use service_identity_provide.Tls.{KeyPair}
use service_identity_provide.Services.Consumer
use service_identity_provide.Services.Consumer.{
  Request, round, rounds, http_no_tls, https_tls, https_mtls, fetch, plain_request, tls_request,
  mtls_request,
}
use service_identity_provide.Services.Provider
use service_identity_provide.Services.Provider.{
  idle, serving, plain_server, tls_server, mtls_server, Checks, respond, Reach, begins, moves,
  plain_starts, tls_starts, mtls_starts, start_plain, start_tls, start_mtls, begun, Listener,
}

abbrev pub reply_of : Option String → Result String
reply_of (some text) = ok text
reply_of none = err (other "no response")

-- The host of a consumer whose requests go to a provider. It reads its own two files.
abbrev pub host_with : Checks → Provider.Provider → Result String → Result KeyPair → Consumer.Host
host_with x p roots pair = record {
  State = Unit;
  Body = String;
  read_file = λ path s. (roots, s);
  load_key_pair = λ certificate key s. (pair, s);
  get = λ r s. (reply_of (respond x p r), s);
  read_all = λ body s. (ok body, s);
  close = λ body s. (ok tt, s);
}

-- The provider with its three servers.
abbrev pub all_serving : String → KeyPair → Provider.Provider
all_serving ca pair = record {
  plain = serving plain_server;
  tls = serving (tls_server pair);
  mtls = serving (mtls_server ca pair);
  status = running;
}

-- What the consumer prints in so many turns, newest first.
abbrev pub answers : ℕ → List String → List String
answers zero before = before
answers (suc n) before = answers n ("mtls" ∷ "tls" ∷ "no tls" ∷ before)

module _ (x : Checks) (ca roots : String) (pair client : KeyPair) where
  abbrev pub host : Consumer.Host
  host = host_with x (all_serving ca pair) (ok roots) (ok client)

  -- The turns returned and printed these responses.
  abbrev pub Answered :
      ℕ → Consumer.Process host.State → Outcome (Unit {0}) → Consumer.Process host.State → Type 0
  Answered n q o q' = (o ≡ returned tt) × (q'.printed ≡ answers n q.printed)

  module _ (accepts : x.accepts_server (some roots) pair ≡ true)
      (verifies : x.verifies_client (some ca) client ≡ true) where
    plain_reply : respond x (all_serving ca pair) (plain_request host) ≡ some "no tls"
    unfolding respond
    plain_reply = refl

    tls_reply : respond x (all_serving ca pair) (tls_request host roots) ≡ some "tls"
    unfolding respond
    tls_reply = rw accepts refl

    mtls_reply : respond x (all_serving ca pair) (mtls_request host roots client) ≡ some "mtls"
    unfolding respond
    mtls_reply = rw (accepts, verifies) refl

    round-Answered :
        (q : Consumer.Process host.State) → let (o, q') = round host q in Answered 1 q o q'
    unfolding round http_no_tls https_tls https_mtls fetch
    round-Answered q = ground (arith, plain_reply, tls_reply, mtls_reply)

    then-Answered :
        (n : ℕ) (q q' q'' : Consumer.Process host.State) (o : Outcome (Unit {0}))
        → q'.printed ≡ answers 1 q.printed
        → Answered n q' o q''
        → Answered (suc n) q o q''
    then-Answered n q q' q'' o now (over, later) = (over, later ∙ ap (answers n) now)

    rounds-Answered :
        (n : ℕ) (q : Consumer.Process host.State)
        → let (o, q') = rounds host n q in Answered n q o q'
    unfolding rounds
    rounds-Answered zero q = (refl, refl)
    rounds-Answered (suc n) q =
        by_round (round host q).0 (round-Answered q).0 (round-Answered q).1
          (rounds-Answered n (round host q).1)
      where
        q1 : Consumer.Process host.State
        q1 = (round host q).1

        by_round :
            (o : Outcome (Unit {0}))
            → o ≡ returned tt
            → q1.printed ≡ answers 1 q.printed
            → (let (o', q') = rounds host n q1 in Answered n q1 o' q')
            → let (o', q') =
                ◌>>=◌ {S = Consumer.Process host.State} (λ _. (o, q1)) (λ _. rounds host n) q in
              Answered (suc n) q o' q'
        by_round (returned _) over now later =
            then-Answered n q q1 (rounds host n q1).1 (rounds host n q1).0 now later
        by_round (failed e) over now later = cc
        by_round panicked over now later = cc
        by_round (exited code) over now later = cc

-- The host of a provider lets its three servers start, with a file of the client CA and a key pair.
abbrev pub Starts : Provider.Host → String → KeyPair → Type 0
Starts h ca pair =
    (h.takes_proxies ≡ true)
    × (((h.can_listen ":8080" ≡ true)
          × ((h.can_listen ":8088" ≡ true) × (h.can_listen ":8089" ≡ true)))
        × ((h.read_file "./ca/client-ca.pem" ≡ ok ca)
            × (h.load_key_pair "./keypair/tls.crt" "./keypair/tls.key" ≡ ok pair)))

module _ (h : Provider.Host) (ca : String) (pair : KeyPair) where
  -- A running provider with its listeners.
  abbrev with_listeners : Listener → Listener → Listener → Provider.Provider
  with_listeners a b c = record { plain = a; tls = b; mtls = c; status = running }

  plain_lem : Starts h ca pair → start_plain h h.takes_proxies ≡ serving plain_server
  plain_lem (proxies, ((plain, (tls, mtls)), (file, keys))) = rw (proxies, plain) refl

  tls_lem : Starts h ca pair → start_tls h h.takes_proxies ≡ serving (tls_server pair)
  tls_lem (proxies, ((plain, (tls, mtls)), (file, keys))) = rw (proxies, keys, tls) refl

  mtls_lem :
      Starts h ca pair
      → (a b : Listener)
      → start_mtls h (with_listeners a b idle) ≡ with_listeners a b (serving (mtls_server ca pair))
  unfolding start_mtls
  mtls_lem (proxies, ((plain, (tls, mtls)), (file, keys))) a b = rw (file, keys, mtls) refl

  -- Where the host lets them, all three servers start.
  pub all_serving-Reach : Starts h ca pair → Reach h (all_serving ca pair)
  all_serving-Reach s =
      let zeroth = subst (λ b. Reach h (begun h b)) s.0 begins in
      let first =
        subst (λ l. Reach h (with_listeners l idle idle)) (plain_lem s)
          (moves (with_listeners idle idle idle) _ zeroth
            (plain_starts (with_listeners idle idle idle) refl refl)) in
      let second =
        subst (λ l. Reach h (with_listeners (serving plain_server) l idle)) (tls_lem s)
          (moves (with_listeners (serving plain_server) idle idle) _ first
            (tls_starts (with_listeners (serving plain_server) idle idle) refl refl)) in
      let two = with_listeners (serving plain_server) (serving (tls_server pair)) idle in
      subst (Reach h) (mtls_lem s (serving plain_server) (serving (tls_server pair)))
        (moves two (start_mtls h two) second (mtls_starts two refl refl))

-- If the host lets the provider start, its client CA verifies the consumer's key pair and the
-- consumer's root accepts the provider's, then the provider can reach a state with three servers,
-- and a consumer that can read its files and whose requests go to it makes any number of turns
-- without an end of the process and prints "no tls", "tls" and "mtls" in each of them.
pub consumer-Answered :
    (h : Provider.Host) (x : Checks) (ca roots : String) (pair client : KeyPair) (n : ℕ)
    (q : Consumer.Process (host x ca roots pair client).State)
    → Starts h ca pair
    → x.accepts_server (some roots) pair ≡ true
    → x.verifies_client (some ca) client ≡ true
    → Reach h (all_serving ca pair)
      × (let (o, q') = rounds (host x ca roots pair client) n q in
          Answered x ca roots pair client n q o q')
consumer-Answered h x ca roots pair client n q starts accepts verifies = (
  all_serving-Reach h ca pair starts,
  rounds-Answered x ca roots pair client accepts verifies n q,
)
