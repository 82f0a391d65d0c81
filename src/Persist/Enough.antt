-- ===== src/Persist/Enough.antt =====
-- The fuel of `persist_from`: three steps are enough.
use service_identity_provide.Base.{ℕ, suc, ◌≡◌, arith}
use service_identity_provide.Base.Fields.{Fields}
use service_identity_provide.Objects.{Secret}
use service_identity_provide.Cluster.{Cluster, World}
use service_identity_provide.Persist.{creating, persist_step, persist_from}

module _ (c : Cluster) (wanted : Secret) (change : Fields → Fields) where
  -- With more fuel a run from the creation on is the same.
  persist_from-enough :
      (n : ℕ) (w : World c.Kube c.Vault)
      → persist_from c wanted change (suc (suc (suc n))) creating w
        ≡ persist_from c wanted change 3 creating w
  unfolding persist_from persist_step
  persist_from-enough n w = ground arith
