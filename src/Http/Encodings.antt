-- ===== src/Http/Encodings.antt =====
-- The list of encodings (http/http1/encoding/list.go) and the comparison of names
-- (util/stringCompare.go). A pointer to a pipe generator is a value of the type `R` or `W`.
pub mod Order
pub mod Search
pub mod Changes
use jotpot_server.Base.{
  ℕ, zero, suc, ◌+◌, ◌-◌, ◌/◌, Bool, true, false, Option, none, some, List, [], ◌∷◌, ◌++◌, map, ltb,
  leb, ◌==◌, if◌then◌else◌, Bytes, length, get_elem?, take, drop,
}

pub data ComparisonResult : Type 0 where
  equal_to less_than greater_than : ComparisonResult

-- The loop over the bytes that both have, then the lengths.
unfoldable pub compare_strings : Bytes → Bytes → ComparisonResult
compare_strings [] [] = equal_to
compare_strings [] (y ∷ b) = less_than
compare_strings (x ∷ a) [] = greater_than
compare_strings (x ∷ a) (y ∷ b) =
    let rest = compare_strings a b in
    if ltb x y then less_than else if ltb y x then greater_than else rest

pub record Encoding (R W : Type 0) : Type 0 where
  pub name : Bytes
  pub reader : R
  pub writer : W

-- The results of `index`, (true, i) and (false, i); an index out of range; the end of the fuel.
pub data Index : Type 0 where
  found missing : ℕ → Index
  panic out_of_fuel : Index

-- The codes from the last to the first.
abbrev pub backwards : List Bytes → List Bytes
backwards [] = []
backwards (c ∷ cs) = backwards cs ++ c ∷ []

module _ {R W : Type 0} where
  -- The loop of `index`, with `past` for b + 1, so that no index is negative.
  unfoldable pub index_from : ℕ → List (Encoding R W) → Bytes → ℕ → ℕ → Index
  index_from zero l encoding a past = out_of_fuel
  index_from (suc fuel) l encoding a past =
      let c = (a + past - 1) / 2 in
      elim (get_elem? l c) [
        | none ↦ panic
        | some e ↦ elim (compare_strings e.name encoding) [
          | equal_to ↦ found c
          | greater_than ↦ elim (leb past (suc c)) [
            | true ↦ missing (suc c)
            | false ↦ index_from fuel l encoding (suc c) past
          ]
          | less_than ↦ elim (leb c a) [ true ↦ missing c | false ↦ index_from fuel l encoding a c ]
        ]
      ]

  unfoldable pub index : List (Encoding R W) → Bytes → Index
  index [] encoding = missing 0
  index (e ∷ l) encoding = index_from (suc (length l)) (e ∷ l) encoding 0 (suc (length l))

  -- `none` is a panic here and below.
  unfoldable pub contains : List (Encoding R W) → Bytes → Option Bool
  contains l encoding = elim (index l encoding) [
    | found i ↦ some true
    | missing i ↦ some false
    | panic ↦ none
    | out_of_fuel ↦ none
  ]

  unfoldable pub get_encoding : List (Encoding R W) → Bytes → Option (Option (Encoding R W))
  get_encoding l encoding = elim (index l encoding) [
    | found i ↦ elim (get_elem? l i) [ none ↦ none | some e ↦ some (some e) ]
    | missing i ↦ some none
    | panic ↦ none
    | out_of_fuel ↦ none
  ]

  -- Go's `copy` of `src` to the positions of `dst` from `at` on, where they fit.
  abbrev pub copy_to : ℕ → List (Encoding R W) → List (Encoding R W) → List (Encoding R W)
  copy_to at src dst = take at dst ++ src ++ drop (at + length src) dst

  unfoldable pub remove : Bytes → List (Encoding R W) → Option (List (Encoding R W) × Bool)
  remove encoding l = elim (index l encoding) [
    | found i ↦ let moved = copy_to i (drop (suc i) l) l in some (take (length l - 1) moved, true)
    | missing i ↦ some (l, false)
    | panic ↦ none
    | out_of_fuel ↦ none
  ]

  -- The last element, as a list of at most one.
  abbrev pub last_part : List (Encoding R W) → List (Encoding R W)
  last_part l = drop (length l - 1) l

  -- The last element is appended, what is from i on but for the last two is moved up by one, and
  -- the new one is written at i.
  unfoldable pub insert_at : ℕ → Encoding R W → List (Encoding R W) → List (Encoding R W)
  insert_at i encoding l =
      let longer = l ++ last_part l in
      let src = take (length longer - 2 - i) (drop i longer) in
      let moved = copy_to (suc i) src longer in copy_to i (encoding ∷ []) moved

  unfoldable pub add : Encoding R W → List (Encoding R W) → Option (List (Encoding R W) × Bool)
  add encoding [] = some (encoding ∷ [], true)
  add encoding (e ∷ l) = elim (index (e ∷ l) encoding.name) [
    | found i ↦ some (e ∷ l, false)
    | missing i ↦ some (
      (if i == length (e ∷ l) then (e ∷ l) ++ encoding ∷ [] else insert_at i encoding (e ∷ l)),
      true,
    )
    | panic ↦ none
    | out_of_fuel ↦ none
  ]

  -- `strings.ToLower` is a parameter. The codes are gone through from the last to the first.
  unfoldable pub readers_of :
      (Bytes → Bytes) → List (Encoding R W) → List Bytes → Option (Option (List R))
  readers_of to_lower l [] = some (some [])
  readers_of to_lower l (code ∷ codes_before) =
      let rest = readers_of to_lower l codes_before in
      elim (get_encoding l (to_lower code)) [
        | none ↦ none
        | some none ↦ some none
        | some (some e) ↦ elim rest [
          | none ↦ none
          | some none ↦ some none
          | some (some readers) ↦ some (some (e.reader ∷ readers))
        ]
      ]

  unfoldable pub get_reader_pipe_generators :
      (Bytes → Bytes) → List (Encoding R W) → List Bytes → Option (Option (List R))
  get_reader_pipe_generators to_lower l codes = readers_of to_lower l (backwards codes)

  -- A code that is not in the list leaves a nil and makes the answer false.
  unfoldable pub get_writer_pipe_generators :
      List (Encoding R W) → List Bytes → Option (List (Option W) × Bool)
  get_writer_pipe_generators l [] = some ([], true)
  get_writer_pipe_generators l (code ∷ codes) =
      let rest = get_writer_pipe_generators l codes in
      elim rest [
        | none ↦ none
        | some (out, ok) ↦ elim (get_encoding l code) [
          | none ↦ none
          | some none ↦ some (none ∷ out, false)
          | some (some e) ↦ some (some e.writer ∷ out, ok)
        ]
      ]
