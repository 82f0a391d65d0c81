-- ===== src/Examples/Demo.antt =====
-- The certificate tool on a machine with simple formats.
use service_identity_provide.Base.{ℕ, suc, String, ◌<>◌, ◌≡◌, refl, true, none, some, [], ◌∷◌}
use service_identity_provide.Objects.{ok}
use service_identity_provide.Cluster.{returned}
use service_identity_provide.Demo.Machine.{Packages, Machine, set_file}
use service_identity_provide.Demo.Util.{parse_ec_key, cert_to_file, key_to_file, build_chain_into}
use service_identity_provide.Demo.Flows.{main}
use service_identity_provide.Demo.Chains.{Built, built_chain, build_chain_into-Built}
use service_identity_provide.Demo.Run.{BothChained}
use service_identity_provide.Demo.Whole.{AllSigned, main-Complete}
use service_identity_provide.Demo.Keys.{CodecLaws, parse_ec_key-key_to_file}

-- Keys are texts, PEM is the identity, and a certificate names its subject and its signer.
abbrev packages : Packages
packages = record {
  Random = ℕ;
  Key = String;
  Parsed = String;
  generate_key = λ r. (ok "KEY", suc r);
  random_int = λ limit r. (ok r, suc r);
  create_certificate = λ template parent key signer r. (ok (template.common_name <> " "), suc r);
  create_request = λ template key r. (ok template.common_name, suc r);
  parse_certificate = λ bytes. ok bytes;
  parse_key = λ bytes. ok bytes;
  marshal_key = λ key. ok key;
  pem_encode = λ kind bytes. bytes;
  pem_decode = λ text. some text;
  can_create = λ path. true;
  can_write = λ path. true;
  failed_write = λ path text old. some "";
  can_close = λ path. true;
  can_read = λ path. true;
}

abbrev empty : Machine ℕ
empty = record { files = λ path. none; random = 0 }

packages-CodecLaws : CodecLaws packages
packages-CodecLaws = record { pem_again = λ kind bytes. refl; key_again = λ key bytes h. cc }

main_chain :
    let (o, s) = main packages empty in
    (o ≡ returned tt)
    × (s.files "./artifacts/server-chain.pem" ≡ some "test.server.com ca.intermediate.com ")
unfolding main
main_chain = (refl, refl)

-- Three files to make a chain of.
abbrev three : Machine ℕ
three = record {
  files = set_file "a" "A" (set_file "b" "B" (set_file "c" "C" (λ path. none)));
  random = 0;
}

-- The first intermediate is not in the chain.
two_intermediates :
    (build_chain_into packages "out" "a" ("b" ∷ "c" ∷ []) three).1.files "out" ≡ some "AC"
unfolding build_chain_into
two_intermediates = refl

-- With no intermediate the chain is empty: the leaf is not in it either.
no_intermediate : (build_chain_into packages "out" "a" [] three).1.files "out" ≡ some ""
unfolding build_chain_into
no_intermediate = refl

build_chain_into-Built_example :
    Built packages three "out"
      (some "A")
      (λ leaf. built_chain leaf three.files ("b" ∷ "c" ∷ []))
      (build_chain_into packages "out" "a" ("b" ∷ "c" ∷ []) three)
build_chain_into-Built_example = build_chain_into-Built packages "out" "a" ("b" ∷ "c" ∷ []) three

key_written : key_to_file packages "K" "k.pem" empty ≡ (
  returned (ok tt),
  record empty { files = set_file "k.pem" "K" (set_file "k.pem" "" empty.files) },
)
unfolding key_to_file
key_written = refl

parse_ec_key-key_to_file_example :
    let s : Machine ℕ = record empty {
      files = set_file "k.pem" "K" (set_file "k.pem" "" empty.files);
    } in
    parse_ec_key packages "k.pem" s ≡ (returned (ok "K"), s)
parse_ec_key-key_to_file_example =
    parse_ec_key-key_to_file packages packages-CodecLaws "K" "k.pem" empty
      (record empty { files = set_file "k.pem" "K" (set_file "k.pem" "" empty.files) }) refl
      key_written

cert_written : cert_to_file packages "C" "c.pem" empty ≡ (
  returned (ok tt),
  record empty { files = set_file "c.pem" "C" (set_file "c.pem" "" empty.files) },
)
unfolding cert_to_file
cert_written = refl

main_returns : (main packages empty).0 ≡ returned tt
unfolding main
main_returns = refl

main-Complete_example :
    AllSigned packages (main packages empty).1 × BothChained packages (main packages empty).1
main-Complete_example = main-Complete packages empty main_returns
