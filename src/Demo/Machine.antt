-- ===== src/Demo/Machine.antt =====
-- The machine that the tool runs on: its files, and the random source and the binary formats of the
-- packages crypto, x509 and pem.
use service_identity_provide.Base.{ℕ, String, Bool, Option, some, List, if◌then◌else◌, str_eq}
use service_identity_provide.Objects.{Result, ok, err}
use service_identity_provide.Cluster.{Act, Outcome, returned, panicked, exited}

-- An `x509.Certificate` as far as the tool fills it in; the dates as years from now.
pub record Template : Type 0 where
  pub serial_number : ℕ
  pub country : List String
  pub province : List String
  pub organization : List String
  pub organizational_unit : List String
  pub common_name : String
  pub dns_names : List String
  pub ip_addresses : List String
  pub years : ℕ
  pub key_usage : List String
  pub ext_key_usage : List String
  pub basic_constraints_valid : Bool
  pub is_ca : Bool
  pub authority_key_id : String

-- Keys are secret keys; certificates and requests are bytes in DER.
pub record Packages : Type 1 where
  pub Random : Type 0
  pub Key : Type 0
  pub Parsed : Type 0
  pub generate_key : Random → Result Key × Random
  pub random_int : ℕ → Random → Result ℕ × Random
  -- a parent of `none` is the template itself; the third argument is the subject's key
  pub create_certificate : Template → Option Parsed → Key → Key → Random → Result String × Random
  pub create_request : Template → Key → Random → Result String × Random
  pub parse_certificate : String → Result Parsed
  pub parse_key : String → Result Key
  pub marshal_key : Key → Result String
  pub pem_encode : String → String → String
  pub pem_decode : String → Option String
  -- whether `os.Create` and `os.WriteFile` succeed for a path, and whether the file can be closed
  pub can_create : String → Bool
  pub can_write : String → Bool
  pub can_close : String → Bool
  pub can_read : String → Bool
  -- what a write that failed leaves in a file, which may have been emptied or written in part: by
  -- its path, the text and what it held
  pub failed_write : String → String → Option String → Option String

pub record Machine (R : Type 0) : Type 0 where
  pub files : String → Option String
  pub random : R

abbrev pub Tool : Type 0 → Type 0 → Type 0
Tool R A = Act (Machine R) A

abbrev pub put_file : String → Option String → (String → Option String) → String → Option String
put_file path content files other = if str_eq path other then content else files other

abbrev pub set_file : String → String → (String → Option String) → String → Option String
set_file path content files other = if str_eq path other then some content else files other

module _ {R : Type 0} where
  -- A call that draws on the random source.
  abbrev pub draw : {A : Type 0} → (R → Result A × R) → Tool R (Result A)
  draw f s = let (r, random) = f s.random in (returned r, record s { random = random })

-- `if err != nil { log.Fatalf(...) }`, and the one with `panic(err)`.
abbrev pub fatal : {A : Type 0} → Result A → Outcome A
fatal (ok a) = returned a
fatal (err e) = exited 1

abbrev pub panic : {A : Type 0} → Result A → Outcome A
panic (ok a) = returned a
panic (err e) = panicked
