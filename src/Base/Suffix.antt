-- ===== src/Base/Suffix.antt =====
-- `strings.TrimSuffix`, on the bytes of a text.
use Prim.Native.Nat.{ℕ, compare, Ordering, ◌+◌, ◌-◌}
use Prim.Native.String.{String, len, slice, ◌++◌ as ◌<>◌}
use mathlib.Core.Path.{◌≡◌}
use mathlib.Core.Bool.{Bool, true, false, ◌&&◌}
use native.Mathlib.Omega.{arith}
use text.Mathlib.TextPositions.{len-append, slice-append_left, slice-append_right}
use service_identity_provide.Base.Tests.{if◌then◌else◌, str_eq, eq_refl}

abbrev leb : ℕ → ℕ → Bool
leb a b = elim (compare a b) [ Ordering.gt ↦ false | _ ↦ true ]

-- `strings.HasSuffix`
unfoldable pub has_suffix : String → String → Bool
has_suffix s suffix =
    leb (len suffix) (len s) && str_eq (slice s (len s - len suffix) (len s)) suffix

unfoldable pub trim_suffix : String → String → String
unfolding has_suffix
trim_suffix s suffix = if has_suffix s suffix then slice s 0 (len s - len suffix) else s

leb-add : (a b : ℕ) → leb b (a + b) ≡ true
leb-add a b = ground arith

add-sub_right : (a b : ℕ) → a + b - b ≡ a
add-sub_right a b = omega arith

has_suffix-append : (s suffix : String) → has_suffix (s <> suffix) suffix ≡ true
unfolding has_suffix
has_suffix-append s suffix =
    rw (len-append s suffix, leb-add, add-sub_right, slice-append_right) (eq_refl suffix)

-- A suffix that was appended is cut off again.
pub trim_suffix-append : (s suffix : String) → trim_suffix (s <> suffix) suffix ≡ s
unfolding trim_suffix
trim_suffix-append s suffix =
    rw (has_suffix-append s suffix, len-append s suffix, add-sub_right) (slice-append_left s suffix)
