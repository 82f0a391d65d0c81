-- ===== src/Cluster/MemoryLaws.antt =====
-- The cluster in memory keeps the documented laws.
use service_identity_provide.Base.{
  ◌<>◌, ◌≡◌, refl, Bool, true, false, ◌&&◌, Option, none, some, List, [], ◌∷◌, arith, if◌then◌else◌,
  eq_refl, eq_iff, if_elim, subst,
}
use service_identity_provide.Base.Lists.{has_mount}
use service_identity_provide.Objects.{
  NamespacedName, Secret, SigningRequest, other, ok, err, key_of,
}
use service_identity_provide.Cluster.Laws.{KubeLaws, VaultLaws, key_eq, written}
use service_identity_provide.Cluster.Memory.{
  MemoryVault, found, is_empty, well_formed, found_secret, create_if_free, update_if_there,
  create_csr_if_free, memory, MemoryKube,
}

found_keeps : {A : Type 0} (o : Option A) (s : MemoryKube) → (found o s).1.secrets ≡ s.secrets
found_keeps none s = refl
found_keeps (some a) s = refl

create_csr_lem :
    (o : Option SigningRequest) (r : SigningRequest) (s : MemoryKube)
    → (create_csr_if_free o r s).1.secrets ≡ s.secrets
create_csr_lem none r s = refl
create_csr_lem (some _) r s = refl

create_lem :
    (o : Option Secret) (x : Secret) (s : MemoryKube)
    → let (r, s') = create_if_free o x s in s'.secrets ≡ written x r s.secrets
create_lem none x s = refl
create_lem (some _) x s = refl

update_lem :
    (o : Option Secret) (x : Secret) (s : MemoryKube)
    → let (r, s') = update_if_there o x s in s'.secrets ≡ written x r s.secrets
update_lem none x s = refl
update_lem (some _) x s = refl

key_eq_sound : (j k : NamespacedName) → key_eq j k ≡ true → j ≡ k
key_eq_sound j k h = λ i. record { namespace = spaces i; name = names i }
  where
    spaces : j.namespace ≡ k.namespace
    spaces = ground (arith, eq_iff j.namespace k.namespace)

    names : j.name ≡ k.name
    names = ground (arith, eq_iff j.name k.name)

is_empty_sound : {A : Type 0} (xs : List A) → is_empty xs ≡ true → xs ≡ []
is_empty_sound [] h = refl
is_empty_sound (_ ∷ _) h = cc

both_left : (a b : Bool) → (a && b) ≡ true → a ≡ true
both_left true b h = refl
both_left false b h = h

both_right : (a b : Bool) → (a && b) ≡ true → b ≡ true
both_right true b h = h
both_right false b h = cc

ok-injective : (x y : Secret) → ok x ≡ ok y → x ≡ y
ok-injective x y h = cc

answer_named :
    (k : NamespacedName) (x y : Secret)
    → (if well_formed k y then ok y else err (other "malformed")) ≡ ok x
    → (key_of x ≡ k) × (x.string_data ≡ [])
answer_named k x y =
    if_elim (λ r. r ≡ ok x → (key_of x ≡ k) × (x.string_data ≡ [])) (well_formed k y)
      (λ good h.
        subst (λ s. (key_of s ≡ k) × (s.string_data ≡ [])) (ok-injective y x h)
          (
            key_eq_sound (key_of y) k (both_left _ (is_empty y.string_data) good),
            is_empty_sound y.string_data (both_right (key_eq (key_of y) k) _ good),
          ))
      (λ _ h. cc)

found_secret_named :
    (k : NamespacedName) (x : Secret) (o : Option Secret) (unreadable : Bool)
    → (if unreadable then err (other "timeout") else found_secret k o) ≡ ok x
    → (key_of x ≡ k) × (x.string_data ≡ [])
found_secret_named k x none true h = cc
found_secret_named k x none false h = cc
found_secret_named k x (some y) true h = cc
found_secret_named k x (some y) false h = answer_named k x y h

pub memory-KubeLaws : KubeLaws memory
memory-KubeLaws = record {
  secrets = λ s. s.secrets;
  get_certificate_keeps = λ k s. found_keeps (s.certificates k) s;
  get_client_ca_keeps = λ k s. found_keeps (s.client_cas k) s;
  get_secret_keeps = λ k s. ground arith;
  create_csr_keeps = λ r s. create_csr_lem s.csr r s;
  get_csr_keeps = λ name s. found_keeps s.csr s;
  delete_csr_keeps = λ name s. refl;
  update_approval_keeps = λ name r s. refl;
  get_secret_found = λ k s x h. ground arith;
  get_secret_named = λ k s x h. found_secret_named k x (s.secrets k) s.unreadable h;
  create_writes = λ x s. create_lem (s.secrets (key_of x)) x s;
  create_ok = λ x s h. ground arith;
  create_taken = λ x s h. ground arith;
  update_writes = λ x s. update_lem (s.secrets (key_of x)) x s;
  update_missing = λ x s h. ground arith;
  owner_set = λ kind m x y h. cc;
}

pub memory-VaultLaws : VaultLaws memory
unfolding has_mount
memory-VaultLaws = record {
  mounts = λ v. v.mounts;
  list_ok = λ v ms h. cc;
  list_keeps = λ v. refl;
  enable_lists = λ path r v h. rw (eq_refl (path <> "/"));
  tune_keeps = λ path ttl v. refl;
  root_keeps = λ exported r path v. refl;
  urls_keeps = λ r path v. refl;
  role_keeps = λ role r path v. refl;
  chain_keeps = λ path v. refl;
  issue_keeps = λ role r path v. refl;
  http_keeps = λ r v. refl;
}

pub memory-mounts : (v : MemoryVault) → memory-VaultLaws.mounts v ≡ v.mounts
unfolding memory-VaultLaws
memory-mounts v = refl
