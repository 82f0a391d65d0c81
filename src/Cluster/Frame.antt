-- ===== src/Cluster/Frame.antt =====
-- What a change to the Secrets leaves alone.
use service_identity_provide.Base.{◌≡◌, refl, ap, false}
use service_identity_provide.Objects.{NamespacedName, Secret, key_of}
use service_identity_provide.Cluster.Laws.{Secrets, key_eq, put}

-- Every Secret but one is as before.
abbrev pub OnlyAt : NamespacedName → Secrets → Secrets → Type 0
OnlyAt key before after = (k : NamespacedName) → key_eq key k ≡ false → after k ≡ before k

pub same-OnlyAt :
    (key : NamespacedName) (before after : Secrets) → after ≡ before → OnlyAt key before after
same-OnlyAt key before after e k differs = ap (λ (f : Secrets). f k) e

pub put-OnlyAt :
    (key : NamespacedName) (s : Secret) (before : Secrets)
    → key_of s ≡ key
    → OnlyAt key before (put s before)
put-OnlyAt key s before e k differs = rw (ap (λ j. key_eq j k) e, differs) refl
