-- ===== src/Examples/Services.antt =====
-- The services of the demonstration with concrete hosts.
use service_identity_provide.Base.{String, true, none, some, [], ◌≡◌, refl, str_eq}
use service_identity_provide.Objects.{ok}
use service_identity_provide.Tls.{KeyPair, zero_config}
use service_identity_provide.Services.Consumer
use service_identity_provide.Services.Consumer.{
  Request, mtls_request, round, rounds, http_no_tls, https_tls, https_mtls, fetch,
}
use service_identity_provide.Services.Provider
use service_identity_provide.Services.Provider.{Checks, Reach, respond}
use service_identity_provide.Services.Guarded.{Verified, respond-Verified}
use service_identity_provide.Services.Together.{
  host, all_serving, Answered, all_serving-Reach, consumer-Answered,
}

abbrev pair : KeyPair
pair = record { certificate = "PROVIDER"; key = "KEY" }

abbrev client : KeyPair
client = record { certificate = "CONSUMER"; key = "KEY" }

-- The client CA has signed the consumer's certificate only.
abbrev checks : Checks
checks = record {
  accepts_server = λ roots p. str_eq p.certificate "PROVIDER";
  verifies_client = λ pool p. str_eq p.certificate "CONSUMER";
}

abbrev provider_host : Provider.Host
provider_host = record {
  read_file = λ path. ok "CLIENT-CA";
  load_key_pair = λ certificate key. ok pair;
  takes_proxies = true;
  can_listen = λ address. true;
}

abbrev consumer_host : Consumer.Host
consumer_host = host checks "CLIENT-CA" "ROOT" pair client

abbrev consumer : Consumer.Process consumer_host.State
consumer = record { host = tt; requests = []; printed = []; open_bodies = 0 }

abbrev guarded_request : Request
guarded_request = mtls_request consumer_host "ROOT" client

respond-Verified_example :
    (◌≡◌ {A = String} "mtls" "mtls") × Verified provider_host checks guarded_request.config
unfolding respond
respond-Verified_example =
    respond-Verified provider_host checks (all_serving "CLIENT-CA" pair) guarded_request "mtls"
      (all_serving-Reach provider_host "CLIENT-CA" pair
        (refl, ((refl, (refl, refl)), (refl, refl))))
      refl refl

-- A client without a certificate gets no response.
no_certificate :
    respond checks (all_serving "CLIENT-CA" pair) (record {
      url = "https://service-provider:8089/mtls";
      config = some (record zero_config { root_cas = some "ROOT" });
    })
    ≡ none
unfolding respond
no_certificate = refl

consumer-Answered_example :
    Reach provider_host (all_serving "CLIENT-CA" pair)
    × (let (o, q) = rounds consumer_host 2 consumer in
        Answered checks "CLIENT-CA" "ROOT" pair client 2 consumer o q)
consumer-Answered_example =
    consumer-Answered provider_host checks "CLIENT-CA" "ROOT" pair client 2 consumer
      (refl, ((refl, (refl, refl)), (refl, refl))) refl refl
