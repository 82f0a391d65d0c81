-- ===== src/Base/Fields.antt =====
-- Go's `map[string]string` as an association list: literals, reads of a missing key, updates.
use Prim.Native.String.{String}
use mathlib.Core.Path.{◌≡◌, refl, ap, ◌∙◌}
use mathlib.Core.Bool.{Bool, true, false}
use native.Mathlib.Omega.{arith}
use mathlib.Core.Option.{Option, none, some}
use mathlib.Core.List.{List, [], ◌∷◌}
use service_identity_provide.Base.Tests.{if◌then◌else◌, str_eq, eq_refl, eq_iff}

abbrev pub Fields : Type 0
Fields = List (String × String)

unfoldable pub field? : Fields → String → Option String
field? [] name = none
field? (entry ∷ rest) name =
    let later = field? rest name in if str_eq entry.0 name then some entry.1 else later

-- `m[name] = value`
unfoldable pub assign : Fields → String → String → Fields
assign [] name value = (name, value) ∷ []
assign (entry ∷ rest) name value =
    let later = assign rest name value in
    if str_eq entry.0 name then (entry.0, value) ∷ rest else entry ∷ later

-- A key that was assigned is found with its new value.
pub field?-assign :
    (m : Fields) (name value : String) → field? (assign m name value) name ≡ some value
unfolding field? assign
field?-assign [] name value = rw (eq_refl name)
field?-assign (entry ∷ rest) name value =
    head (field?-assign rest name value) (str_eq entry.0 name) refl
  where
    head :
        field? (assign rest name value) name ≡ some value
        → (b : Bool) → str_eq entry.0 name ≡ b
        → field? (if b then (entry.0, value) ∷ rest else entry ∷ assign rest name value) name
          ≡ some value
    head later true e = rw e
    head later false e = rw (e, later)

-- The other keys keep their values.
pub field?-assign_other :
    (m : Fields) (name value other : String)
    → str_eq name other ≡ false
    → field? (assign m name value) other ≡ field? m other
unfolding field? assign
field?-assign_other [] name value other differ = rw differ refl
field?-assign_other (entry ∷ rest) name value other differ =
    head (field?-assign_other rest name value other differ) (str_eq entry.0 name) refl
  where
    named : str_eq entry.0 name ≡ true → entry.0 ≡ name
    named e = ground (arith, eq_iff entry.0 name)

    head :
        field? (assign rest name value) other ≡ field? rest other
        → (b : Bool) → str_eq entry.0 name ≡ b
        → field? (if b then (entry.0, value) ∷ rest else entry ∷ assign rest name value) other
          ≡ field? (entry ∷ rest) other
    head later true e = rw (ap (λ x. str_eq x other) (named e) ∙ differ) refl
    head later false e = rw later refl

-- `m[name]`, which is the zero value for a missing key.
unfoldable pub field : Fields → String → String
unfolding field?
field m name = elim (field? m name) [ none ↦ "" | some value ↦ value ]

-- Every entry of the second map written over the first.
unfoldable pub merge : Fields → Fields → Fields
unfolding assign
merge m [] = m
merge m (entry ∷ over) = merge (assign m entry.0 entry.1) over

pub field-found :
    (m : Fields) (name value : String) → field? m name ≡ some value → field m name ≡ value
unfolding field
field-found m name value h = ground (arith, h)
