-- ===== src/Base/Lists.antt =====
-- Predicates on lists of requests, and the keys of a map as a list.
use Prim.Native.Nat.{ℕ, suc}
use mathlib.Core.Path.{◌≡◌}
use mathlib.Core.Logic.{◌⊎◌, inl}
use mathlib.Core.Bool.{Bool, true, false}
use mathlib.Core.List.{List, [], ◌∷◌}
use Prim.Native.String.{String}
use service_identity_provide.Base.Tests.{if◌then◌else◌, str_eq}

-- Every element has the property; the newest one is asked first.
abbrev pub Every {ℓ} : {A : Type ℓ} → (A → Type 0) → List A → Type 0
Every Property [] = Unit {0}
Every Property (newest ∷ older) = Property newest × Every Property older

-- The first few elements of the plan were put on a list, in its order, and no other.
abbrev pub Sent {ℓ} : {A : Type ℓ} → List A → List A → List A → Type ℓ
Sent [] before after = after ≡ before
Sent (x ∷ plan) before after = (after ≡ before) ⊎ Sent plan (x ∷ before) after

-- Nothing was put on it.
pub Sent-none {ℓ} :
    {A : Type ℓ} (plan before after : List A) → after ≡ before → Sent plan before after
Sent-none [] before after same = same
Sent-none (x ∷ plan) before after same = inl same

-- An element is on the list.
abbrev pub Among : {A : Type 0} → A → List A → Type 0
Among x [] = ⊥
Among x (y ∷ ys) = (x ≡ y) ⊎ Among x ys

-- How many elements pass the test.
abbrev pub count_if {ℓ} : {A : Type ℓ} → (A → Bool) → List A → ℕ
count_if p [] = 0
count_if p (x ∷ xs) = if p x then suc (count_if p xs) else count_if p xs

-- `_, ok := listResp.Data[path]`
unfoldable pub has_mount : String → List String → Bool
has_mount path [] = false
has_mount path (m ∷ ms) = if str_eq m path then true else has_mount path ms
