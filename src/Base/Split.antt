-- ===== src/Base/Split.antt =====
-- `strings.Split` at a separator of one character.
use Prim.Native.Nat.{ℕ, suc}
use Prim.Native.Char.{Char}
use Prim.Native.String.{String}
use mathlib.Core.Path.{◌≡◌, refl}
use mathlib.Core.Bool.{Bool, true, false}
use mathlib.Core.List.{List, [], ◌∷◌}
use service_identity_provide.Base.Tests.{if◌then◌else◌, str_eq}

abbrev one_char : Char → String
one_char c = String.◌∷◌ c String.[]

-- A character put in front of the first part.
abbrev pub into_first : Char → List String → List String
into_first c [] = []
into_first c (part ∷ parts) = String.◌∷◌ c part ∷ parts

abbrev pub cut_or_keep : Bool → Char → List String → List String
cut_or_keep true c parts = "" ∷ parts
cut_or_keep false c parts = into_first c parts

-- A text without the separator, also an empty one, is one part.
unfoldable pub split : String → String → List String
split String.[] sep = "" ∷ []
split (String.◌∷◌ c s) sep = cut_or_keep (str_eq (one_char c) sep) c (split s sep)

-- How often the separator is in a text.
unfoldable pub separators : String → String → ℕ
separators String.[] sep = 0
separators (String.◌∷◌ c s) sep =
    let rest = separators s sep in if str_eq (one_char c) sep then suc rest else rest

unfoldable pub length : List String → ℕ
length [] = 0
length (_ ∷ rest) = suc (length rest)

-- A text has one part more than it has separators.
pub length-split : (s sep : String) → length (split s sep) ≡ suc (separators s sep)
unfolding length split separators
length-split String.[] sep = refl
length-split (String.◌∷◌ c s) sep =
    by_parts (str_eq (one_char c) sep) (split s sep) (length-split s sep)
  where
    by_parts :
        (b : Bool) (parts : List String)
        → length parts ≡ suc (separators s sep)
        → length (cut_or_keep b c parts)
          ≡ suc (if b then suc (separators s sep) else separators s sep)
    by_parts true parts h = cc
    by_parts false [] h = h
    by_parts false (part ∷ parts) h = h

split_three : split "vault-0,vault-1,vault-2" "," ≡ "vault-0" ∷ "vault-1" ∷ "vault-2" ∷ []
unfolding split
split_three = refl
