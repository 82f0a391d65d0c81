-- ===== src/Services/Rounds.antt =====
-- What the consumer has done after some turns of its loop.
use service_identity_provide.Base.{ℕ, zero, suc, ◌+◌, ◌≤◌, String, List, [], ◌∷◌, ◌≡◌}
use service_identity_provide.Base.Lists.{Sent}
use service_identity_provide.Cluster.{Outcome, returned, failed, panicked, exited}
use service_identity_provide.Services.Consumer.{Request, Host, Process}

abbrev pub urls : List Request → List String
urls [] = []
urls (r ∷ rest) = r.url ∷ urls rest

-- The requests of so many turns, in their order.
abbrev pub turns : ℕ → List String
turns zero = []
turns (suc n) =
    "http://service-provider:8080/"
    ∷ "https://service-provider:8088/tls"
    ∷ "https://service-provider:8089/mtls"
    ∷ turns n

-- A plan put on a list whole, newest first.
abbrev pub after_all : List String → List String → List String
after_all [] before = before
after_all (x ∷ plan) before = after_all plan (x ∷ before)

module _ (h : Host) where
  -- By how the turns ended: all of their requests were sent and two bodies of each turn are open,
  -- or the process was ended with status 1, the requests are the first few of the turns, and no
  -- earlier body was closed.
  abbrev pub Turned : ℕ → Process h.State → Outcome (Unit {0}) → Process h.State → Type 0
  Turned n p (returned _) q =
      (urls q.requests ≡ after_all (turns n) (urls p.requests))
      × (q.open_bodies ≡ p.open_bodies + (n + n))
  Turned n p (exited code) q =
      (code ≡ 1)
      × (Sent (turns n) (urls p.requests) (urls q.requests) × (p.open_bodies ≤ q.open_bodies))
  Turned n p (failed e) q = ⊥
  Turned n p panicked q = ⊥
