-- ===== src/Demo/Util.antt =====
-- util.go: serial numbers, PEM files and certificate chains.
use service_identity_provide.Base.{
  ℕ, String, ◌<>◌, Bool, true, false, Option, none, some, List, [], ◌∷◌, if◌then◌else◌,
}
use service_identity_provide.Objects.{Error, Result, ok, err}
use service_identity_provide.Cluster.{◌>>=◌, ◌>>◌, lift, Outcome, returned, exited}
use service_identity_provide.Demo.Machine.{Packages, Tool, set_file, put_file, draw, fatal}

-- 1 << 128
abbrev pub serial_number_limit : ℕ
serial_number_limit = 340282366920938463463374607431768211456

module _ (x : Packages) where
  unfoldable pub generate_serial_number : Tool x.Random (Result ℕ)
  generate_serial_number = draw (x.random_int serial_number_limit)

  -- `os.ReadFile`, after which `log.Fatalf` ends the process if there is no such file.
  abbrev pub content_of : Bool → Option String → Outcome String
  content_of true (some text) = returned text
  content_of _ _ = exited 1

  abbrev pub read_or_fatal : String → Tool x.Random String
  read_or_fatal file s = (content_of (x.can_read file) (s.files file), s)

  -- `pem.Decode`; no block ends the process.
  abbrev pub block_of : Option String → Outcome String
  block_of none = exited 1
  block_of (some bytes) = returned bytes

  unfoldable pub parse_pem_cert : String → Tool x.Random (Result x.Parsed)
  parse_pem_cert file = do
    text ← read_or_fatal file
    bytes ← lift (block_of (x.pem_decode text))
    lift (returned (x.parse_certificate bytes))

  unfoldable pub parse_ec_key : String → Tool x.Random (Result x.Key)
  parse_ec_key file = do
    text ← read_or_fatal file
    bytes ← lift (block_of (x.pem_decode text))
    lift (returned (x.parse_key bytes))

  abbrev pub created : Bool → String → Tool x.Random (Unit {0})
  created true file s = (returned tt, record s { files = set_file file "" s.files })
  created false file s = (exited 1, s)

  -- `os.Create` empties the file; the deferred `Close` ends the process if it fails.
  abbrev pub create_file : String → Tool x.Random (Unit {0})
  create_file file s = created (x.can_create file) file s

  abbrev pub encoded : Bool → String → String → Tool x.Random (Result (Unit {0}))
  encoded true file text s = (returned (ok tt), record s { files = set_file file text s.files })
  encoded false file text s = (
    returned (err (Error.other "write")),
    record s { files = put_file file (x.failed_write file text (s.files file)) s.files },
  )

  abbrev pub encode_into : String → String → Tool x.Random (Result (Unit {0}))
  encode_into file text s = encoded (x.can_write file) file text s

  abbrev pub close_file : String → Result (Unit {0}) → Tool x.Random (Result (Unit {0}))
  close_file file r = lift (if x.can_close file then returned r else exited 1)

  unfoldable pub cert_to_file : String → String → Tool x.Random (Result (Unit {0}))
  cert_to_file cert file = create_file file >>= λ _.
      encode_into file (x.pem_encode "CERTIFICATE" cert) >>= close_file file

  -- The deferred `Close` does not run where the key cannot be marshalled: the process ends.
  unfoldable pub key_to_file : x.Key → String → Tool x.Random (Result (Unit {0}))
  key_to_file key file = do
    create_file file
    bytes ← lift (fatal (x.marshal_key key))
    encode_into file (x.pem_encode "EC PRIVATE KEY" bytes) >>= close_file file

  unfoldable pub csr_to_file : String → String → Tool x.Random (Result (Unit {0}))
  csr_to_file csr file = create_file file >>= λ _.
      encode_into file (x.pem_encode "CERTIFICATE REQUEST" csr) >>= close_file file

  -- The loop over the intermediates: each turn starts again from the leaf's text.
  unfoldable pub append_certs : String → String → List String → Tool x.Random String
  append_certs leaf chain [] = lift (returned chain)
  append_certs leaf chain (file ∷ files) =
      read_or_fatal file >>= λ text. append_certs leaf (leaf <> text) files

  -- `os.WriteFile`, which empties the file before it writes.
  abbrev pub write_or_fatal : String → String → Tool x.Random (Unit {0})
  write_or_fatal file text s =
      if x.can_write file then (returned tt, record s { files = set_file file text s.files }) else (
        exited 1,
        record s { files = put_file file (x.failed_write file text (s.files file)) s.files },
      )

  unfoldable pub build_chain_into : String → String → List String → Tool x.Random (Unit {0})
  unfolding append_certs
  build_chain_into chain_file cert interm_certs = do
    leaf ← read_or_fatal cert
    chain ← append_certs leaf "" interm_certs
    write_or_fatal chain_file chain

  unfoldable pub build_server_cert_chain : String → List String → Tool x.Random (Unit {0})
  unfolding build_chain_into
  build_server_cert_chain = build_chain_into "./artifacts/server-chain.pem"

  unfoldable pub build_client_cert_chain : String → List String → Tool x.Random (Unit {0})
  unfolding build_chain_into
  build_client_cert_chain = build_chain_into "./artifacts/client-chain.pem"
