-- ===== src/Cert/Content.antt =====
-- The Secret that a reconciliation makes: its key, its owner and what its fields hold.
use service_identity_provide.Base.{
  String, ◌<>◌, Bool, true, false, ◌≡◌, ◌≢◌, inl, inr, ◌∙◌, ap, Option, none, some, List, [], ◌∷◌,
  arith, eq_iff, eq_refl, refl,
}
use service_identity_provide.Base.Fields.{Fields, field?, assign, merge}
use service_identity_provide.Objects.{Secret, key_of}
use service_identity_provide.Resources.Certificates.{InternalCertificate}
use service_identity_provide.Cluster.{Cluster, Issued, returned}
use service_identity_provide.Cluster.Laws.{KubeLaws, stored, owner_of}
use service_identity_provide.Cert.Reconciler.{secret_key, secret_literal, build_secret_from}
use service_identity_provide.Cert.Requests.{Chained, MadeFrom, build_secret_from-MadeFrom}

-- The data that the API server keeps of two fields that were written one after the other.
abbrev pair : (key_name cert_name key cert : String) → Fields
pair key_name cert_name key cert = merge [] (assign (assign [] key_name key) cert_name cert)

field?-pair :
    (key_name cert_name key cert : String)
    → (field? (pair key_name cert_name key cert) cert_name ≡ some cert)
      × (cert_name ≢ key_name → field? (pair key_name cert_name key cert) key_name ≡ some key)
unfolding field? assign merge
field?-pair j k u v = ground (arith, eq_iff j k, eq_iff k j, eq_refl j, eq_refl k)

module _ (c : Cluster) (L : KubeLaws c) (cr : InternalCertificate) (resp : Issued)
    (s : Secret) where
  made-eq :
      (m : MadeFrom c cr resp s)
      → s ≡ record (secret_literal cr resp m.0) {
        owner = some (owner_of "InternalCertificate" cr.meta);
      }
  made-eq (cert, chained, e) =
      L.owner_set "InternalCertificate" cr.meta (secret_literal cr resp cert) s e

  pub key_of-made : MadeFrom c cr resp s → key_of s ≡ secret_key cr.meta.namespace cr
  unfolding secret_literal
  key_of-made m = ap key_of (made-eq m)

  -- The certificate text that belongs into the Secret: a server's is followed by the first
  -- certificate of its chain.
  abbrev pub text_for : Bool → List String → Option String
  text_for true chain = some resp.certificate
  text_for false [] = none
  text_for false (ca ∷ rest) = some (resp.certificate <> ("\n" <> ca))

  Chained-text :
      (cert : String) (client : Bool) (chain : List String)
      → cr.spec.certificate.extended_key_usage.client_auth ≡ client
      → resp.ca_chain ≡ chain
      → Chained cr resp cert
      → some cert ≡ text_for client chain
  Chained-text cert true chain usage issuers (inl (client, e)) = ap some e
  Chained-text cert true chain usage issuers (inr (server, more)) = cc
  Chained-text cert false chain usage issuers (inl (client, e)) = cc
  Chained-text cert false [] usage issuers (inr (server, (ca, rest, e, text))) = cc
  Chained-text cert false (issuer ∷ others) usage issuers (inr (server, (ca, rest, e, text))) = cc

  -- The Secret that is built from an answer of Vault is owned by the resource and is stored under its
  -- namespace and the name that it asks for. The certificate, for a server followed by the first
  -- certificate of the chain, is stored under the certificate's name, and under different names the
  -- private key is too.
  pub built-stored :
      build_secret_from c cr resp ≡ returned s
      → (key_of s ≡ secret_key cr.meta.namespace cr)
        × (s.owner ≡ some (owner_of "InternalCertificate" cr.meta))
        × (field? (stored s).data_fields cr.spec.secret.cert_name
            ≡ text_for cr.spec.certificate.extended_key_usage.client_auth resp.ca_chain)
        × (cr.spec.secret.cert_name ≢ cr.spec.secret.key_name
            → field? (stored s).data_fields cr.spec.secret.key_name ≡ some resp.private_key)
  unfolding secret_literal
  built-stored built =
      let m : MadeFrom c cr resp s = build_secret_from-MadeFrom c cr resp s built in
      (
        key_of-made m,
        ap (λ (x : Secret). x.owner) (made-eq m),
        ap (λ x. field? (stored x).data_fields cr.spec.secret.cert_name) (made-eq m)
            ∙ (field?-pair _ _ _ _).0
            ∙ Chained-text m.0 _ _ refl refl m.1,
        λ differ. rw (made-eq m) ((field?-pair _ _ _ _).1 differ),
      )
