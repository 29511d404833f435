-- ===== src/Examples/Encodings.antt =====
-- Runs and theorems of the list of encodings at concrete inputs.
use jotpot_server.Base.{ℕ, ◌+◌, ◌≡◌, refl, Bytes, List, [], ◌∷◌, some, codes, true}
use jotpot_server.Http.Encodings.{Encoding, index, index_from, compare_strings, add, insert_at}
use jotpot_server.Http.Encodings.Order.{IsSorted}
use jotpot_server.Http.Encodings.Search.{Located, index-Located}
use jotpot_server.Http.Encodings.Changes.{IsAdded, add-IsSorted}

abbrev encoding : Bytes → ℕ → Encoding ℕ ℕ
encoding name n = record { name = name; reader = n; writer = n + 100 }

abbrev gzip : Encoding ℕ ℕ
gzip = encoding (codes "gzip") 2

-- The order that the binary search wants is the descending one.
abbrev encodings : List (Encoding ℕ ℕ)
encodings =
    encoding (codes "x-gzip") 1 ∷ encoding (codes "deflate") 3 ∷ encoding (codes "chunked") 4 ∷ []

encodings-IsSorted : IsSorted encodings
unfolding compare_strings
encodings-IsSorted = ((refl, (refl, tt)), ((refl, tt), (tt, tt)))

add-gzip :
    add gzip encodings
    ≡ some (
      encoding (codes "x-gzip") 1
          ∷ gzip
          ∷ encoding (codes "deflate") 3
          ∷ encoding (codes "chunked") 4
          ∷ [],
      true,
    )
unfolding add index index_from compare_strings insert_at
add-gzip = refl

index-Located_example : Located encodings (codes "chunked") (index encodings (codes "chunked"))
index-Located_example = index-Located encodings (codes "chunked") encodings-IsSorted

add-IsSorted_example : IsAdded gzip encodings (add gzip encodings)
add-IsSorted_example = add-IsSorted gzip encodings encodings-IsSorted
