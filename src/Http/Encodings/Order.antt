-- ===== src/Http/Encodings/Order.antt =====
-- The order of the names, and sorted lists.
use jotpot_server.Base.{◌≡◌, refl, arith, List, [], ◌∷◌, Bytes, All}
use jotpot_server.Http.Encodings.{equal_to, less_than, greater_than, compare_strings, Encoding}

-- The first string is the greater one.
abbrev pub Above : Bytes → Bytes → Type 0
Above a b = compare_strings a b ≡ greater_than

pub compare_strings-equal : (a b : Bytes) → compare_strings a b ≡ equal_to → a ≡ b
unfolding compare_strings
compare_strings-equal [] [] h = refl
compare_strings-equal [] (y ∷ b) h = cc
compare_strings-equal (x ∷ a) [] h = cc
compare_strings-equal (x ∷ a) (y ∷ b) h = ground (arith, compare_strings-equal a b)

pub compare_strings-flip : (a b : Bytes) → compare_strings a b ≡ less_than → Above b a
unfolding compare_strings
compare_strings-flip [] [] h = cc
compare_strings-flip [] (y ∷ b) h = refl
compare_strings-flip (x ∷ a) [] h = cc
compare_strings-flip (x ∷ a) (y ∷ b) h = ground (arith, compare_strings-flip a b)

pub Above-trans : (a b c : Bytes) → Above a b → Above b c → Above a c
unfolding compare_strings
Above-trans [] [] c h k = cc
Above-trans [] (y ∷ b) c h k = cc
Above-trans (x ∷ a) [] [] h k = refl
Above-trans (x ∷ a) [] (z ∷ c) h k = cc
Above-trans (x ∷ a) (y ∷ b) [] h k = refl
Above-trans (x ∷ a) (y ∷ b) (z ∷ c) h k = ground (arith, Above-trans a b c)

module _ {R W : Type 0} where
  -- Every name is above the later ones, so no name occurs twice.
  abbrev pub IsSorted : List (Encoding R W) → Type 0
  IsSorted [] = Unit
  IsSorted (e ∷ l) = All (λ f. Above e.name f.name) l × IsSorted l
