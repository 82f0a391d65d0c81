-- ===== src/Examples/Bootstrap.antt =====
-- The TLS job on a concrete cluster.
use service_identity_provide.Base.{◌≡◌, refl, false, none, some, []}
use service_identity_provide.Base.Fields.{assign, merge}
use service_identity_provide.Cluster.{World, returned}
use service_identity_provide.Cluster.Memory.{MemoryKube, MemoryVault, memory}
use service_identity_provide.Bootstrap.Job.{csr_to_k8s, main, tls_secret}
use service_identity_provide.Cluster.Laws.{put}

abbrev start : World MemoryKube MemoryVault
start = record {
  kube = record {
    certificates = λ k. none;
    client_cas = λ k. none;
    secrets = put (tls_secret "sip" "OLD" "OLD") (λ k. none);
    unreadable = false;
    csr = some (csr_to_k8s "OLD");
  };
  vault = record { mounts = []; broken = false };
  trace = [];
}

-- A left-over request is replaced, and the Secret of an earlier run is updated.
main_returns : (main memory "sip" "cluster.local" start).0 ≡ returned tt
unfolding main merge assign
main_returns = refl
