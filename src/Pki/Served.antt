-- ===== src/Pki/Served.antt =====
-- The intermediate CA and the certificates of servers: the role and the mount that they are issued
-- by are those that the PKI job sets up.
use service_identity_provide.Base.{String, ◌≡◌, inl, refl, arith}
use service_identity_provide.Base.Lists.{Among}
use service_identity_provide.Cluster.{Cluster, Call, World, returned, try, or_fatal}
use service_identity_provide.Cluster.Rules.{bind_returned}
use service_identity_provide.Cluster.Api.{enable_engine, tune_mount, configure_urls, write_role}
use service_identity_provide.Pki.Setup.{
  interm_ca_path, interm_ca_ttl, interm_ca_role, enable_request, urls_request, interm_role_request,
  disable_flag, sign_by_root, install_interm, flag_interm, role_interm, urls_interm, tune_interm,
  enable_pki_interm_ca,
}

module _ (c : Cluster) (token : String) where
  flag_interm-Among :
      (call : Call) (w : World c.Kube c.Vault)
      → Among call w.trace
      → Among call (flag_interm c token w).1.trace
  unfolding flag_interm disable_flag install_interm sign_by_root
  flag_interm-Among call w sent = ground arith

  -- The role that the job writes.
  abbrev pub written_role : Call
  written_role = Call.write_role interm_ca_role interm_role_request interm_ca_path

  abbrev Written : World c.Kube c.Vault → Type 0
  Written w = Among written_role w.trace

  pub enable_pki_interm_ca-Written :
      (w : World c.Kube c.Vault)
      → (enable_pki_interm_ca c token w).0 ≡ returned tt
      → Written (enable_pki_interm_ca c token w).1
  unfolding enable_pki_interm_ca tune_interm urls_interm role_interm
  enable_pki_interm_ca-Written w done =
      bind_returned Written (try (enable_engine c interm_ca_path enable_request))
        (λ _. tune_interm c token) w tt done
        (λ _ _ tuned.
          bind_returned Written (or_fatal (tune_mount c interm_ca_path interm_ca_ttl))
            (λ _. urls_interm c token) (enable_engine c interm_ca_path enable_request w).1 tt tuned
            (λ _ _ urls.
              bind_returned Written
                (or_fatal (configure_urls c (urls_request interm_ca_path) interm_ca_path))
                (λ _. role_interm c token) w2 tt urls
                (λ _ _ role.
                  bind_returned Written
                    (or_fatal (write_role c interm_ca_role interm_role_request interm_ca_path))
                    (λ _. flag_interm c token) w3 tt role
                    (λ _ _ _.
                      flag_interm-Among written_role
                        (write_role c interm_ca_role interm_role_request interm_ca_path w3).1
                        (inl refl)))))
    where
      w2 : World c.Kube c.Vault
      w2 =
          (tune_mount c interm_ca_path interm_ca_ttl
            (enable_engine c interm_ca_path enable_request w).1).1

      w3 : World c.Kube c.Vault
      w3 = (configure_urls c (urls_request interm_ca_path) interm_ca_path w2).1
