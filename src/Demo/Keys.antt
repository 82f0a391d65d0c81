-- ===== src/Demo/Keys.antt =====
-- Keys and certificates that were written to a file are read back.
use service_identity_provide.Base.{arith, String, true, some, ◌≡◌, refl, eq_refl}
use service_identity_provide.Objects.{Result, ok, err}
use service_identity_provide.Cluster.{returned}
use service_identity_provide.Demo.Machine.{Packages, Machine}
use service_identity_provide.Demo.Util.{parse_pem_cert, parse_ec_key, cert_to_file, key_to_file}

-- What the tool relies on, as documented by encoding/pem and crypto/x509: what was encoded is
-- decoded again.
pub record CodecLaws (x : Packages) : Type 0 where
  pub pem_again : (kind bytes : String) → x.pem_decode (x.pem_encode kind bytes) ≡ some bytes
  pub key_again :
      (key : x.Key) (bytes : String) → x.marshal_key key ≡ ok bytes → x.parse_key bytes ≡ ok key

module _ (x : Packages) (L : CodecLaws x) where
  -- A key that was written without an error is the key that is read from the file.
  pub parse_ec_key-key_to_file :
      (key : x.Key) (file : String) (s s' : Machine x.Random)
      → x.can_read file ≡ true
      → key_to_file x key file s ≡ (returned (ok tt), s')
      → parse_ec_key x file s' ≡ (returned (ok key), s')
  unfolding key_to_file parse_ec_key
  parse_ec_key-key_to_file key file s s' readable done = by_bytes (x.marshal_key key) refl
    where
      by_bytes :
          (r : Result String)
          → x.marshal_key key ≡ r
          → parse_ec_key x file s' ≡ (returned (ok key), s')
      by_bytes (ok bytes) e =
          ground (arith, eq_refl file, L.pem_again "EC PRIVATE KEY" bytes, L.key_again key bytes e)
      by_bytes (err e') e = ground arith

  -- A certificate that was written without an error is read back as its bytes are parsed.
  pub parse_pem_cert-cert_to_file :
      (cert file : String) (s s' : Machine x.Random)
      → x.can_read file ≡ true
      → cert_to_file x cert file s ≡ (returned (ok tt), s')
      → parse_pem_cert x file s' ≡ (returned (x.parse_certificate cert), s')
  unfolding cert_to_file parse_pem_cert
  parse_pem_cert-cert_to_file cert file s s' readable done =
      ground (arith, eq_refl file, L.pem_again "CERTIFICATE" cert)
