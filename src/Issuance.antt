-- ===== src/Issuance.antt =====
-- The role and the mount that certificates are issued by, and the programs that set them up: the
-- PKI job for servers, the operator of client CAs for clients.
use service_identity_provide.Base.{
  String, ◌<>◌, Bool, true, false, List, ◌∷◌, ◌≡◌, inl, inr, refl, sym, subst,
}
use service_identity_provide.Base.Lists.{Among}
use service_identity_provide.Objects.{Secret, Result, ok, err}
use service_identity_provide.Resources.Certificates.{InternalCertificate}
use service_identity_provide.Resources.ClientCas.{InternalClientCa}
use service_identity_provide.Cluster.{Cluster, Call, RoleRequest, World, returned}
use service_identity_provide.Startup.{root_token_key}
use service_identity_provide.Cert.Reconciler.{
  issue_request, client_mount, issue_client, issue_server,
}
use service_identity_provide.ClientCa.Setup.{client_ca_role, role_request, enable_pki_client_ca}
use service_identity_provide.ClientCa.Reconciler.{mount_of}
use service_identity_provide.ClientCa.Mounts.{client_mount-mount_of}
use service_identity_provide.ClientCa.Returned.{patched, setup-returned}
use service_identity_provide.Pki.Setup.{interm_role_request, enable_pki_interm_ca}
use service_identity_provide.Pki.Served.{enable_pki_interm_ca-Written}

module _ (c : Cluster) where
  -- The role of a mount was written by the setup of a client CA.
  abbrev client_role : String → Call
  client_role mount = Call.write_role client_ca_role role_request mount

  patched-Among :
      (ca : InternalClientCa) (mount : String) (call read : Call) (before after : List Call)
      (reply found : Result Secret) (valid : Bool)
      → after ≡ patched c ca mount reply found valid (read ∷ call ∷ before)
      → Among call after
  patched-Among ca mount call read before after reply (ok s) true e =
      subst (Among call) (sym e) (inr (inr (inl refl)))
  patched-Among ca mount call read before after reply (ok s) false e =
      subst (Among call) (sym e) (inr (inl refl))
  patched-Among ca mount call read before after reply (err x) valid e =
      subst (Among call) (sym e) (inr (inl refl))

  setup-client_role :
      (ca : InternalClientCa) (mount r : String) (w : World c.Kube c.Vault)
      → (enable_pki_client_ca c ca mount w).0 ≡ returned r
      → Among (client_role mount) (enable_pki_client_ca c ca mount w).1.trace
  setup-client_role ca mount r w done =
      let (root, made, kept, read) =
        setup-returned c ca mount (c.kube_get_secret (root_token_key c) w.kube).0 w r refl done in
      patched-Among ca mount (client_role mount) _ _ _
        (c.kube_get_secret (root_token_key c) w.kube).0
        (c.kube_get_secret (root_token_key c) w.kube).0 _ read

  -- The newest request of a trace asks for a certificate with the name of a resource, and the role
  -- and the mount that it asks were written by the requests of another trace.
  abbrev pub AsksWritten :
      RoleRequest → InternalCertificate → List Call → List Call → List Call → Type 0
  AsksWritten written cr before asked setup =
      (role : String) × (mount : String) × (asked
        ≡ Call.issue_with_role role (issue_request cr.spec.certificate.subject.cn) mount ∷ before)
      × Among (Call.write_role role written mount) setup

  -- The request for the certificate of a server asks the role of the mount that the PKI job wrote,
  -- if that job has set its intermediate CA up to the end.
  pub issue_server-AsksWritten :
      (cr : InternalCertificate) (token : String) (w v : World c.Kube c.Vault)
      → (enable_pki_interm_ca c token v).0 ≡ returned tt
      → AsksWritten interm_role_request cr w.trace
          (issue_server c cr w).1.trace
          (enable_pki_interm_ca c token v).1.trace
  issue_server-AsksWritten cr token w v interm =
      ("interm-ca", "sip-interm-ca", refl, enable_pki_interm_ca-Written c token v interm)

  -- The request for the certificate of a client, whose issuer reference is the common name of a
  -- client CA followed by "-ca", asks the role and the mount that the setup of that CA wrote, if
  -- that setup returned.
  pub issue_client-AsksWritten :
      (cr : InternalCertificate) (ca : InternalClientCa) (r : String) (w v : World c.Kube c.Vault)
      → cr.spec.certificate.issuer.reference ≡ ca.spec.certificate.subject.cn <> "-ca"
      → (enable_pki_client_ca c ca (mount_of ca) v).0 ≡ returned r
      → AsksWritten role_request cr w.trace
          (issue_client c cr w).1.trace
          (enable_pki_client_ca c ca (mount_of ca) v).1.trace
  issue_client-AsksWritten cr ca r w v issuer returns = (
    "client-ca",
    client_mount cr,
    refl,
    subst (λ mount. Among (client_role mount) (enable_pki_client_ca c ca (mount_of ca) v).1.trace)
        (sym ((client_mount-mount_of cr ca).1.1 issuer))
        (setup-client_role ca (mount_of ca) r v returns),
  )
