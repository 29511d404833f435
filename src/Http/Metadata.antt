-- ===== src/Http/Metadata.antt =====
-- The metadata of a resource that the header holds (http/http1/metadata.go), with no other goroutine
-- at work on it. A getter leaves the header as it is; `none` is a panic. Left out are the media types.
pub mod Fields
pub mod Sizes
pub mod Names
use jotpot_server.Base.{
  ℕ, ◌+◌, ◌-◌, ◌^◌, ◌≡◌, Bool, true, false, not, ◌&&◌, ◌||◌, Option, none, some, List, [], ◌∷◌,
  ◌++◌, ltb, if◌then◌else◌, Bytes, equal, codes, length, take, drop, inl, inr, ◌⊎◌,
}
use jotpot_server.Base.Int.{ℤ, pos, negsuc, ◌+ℤ◌, ◌-ℤ◌, is_negative, wrap_int64}
use jotpot_server.Base.Decimal.{
  NumError, err_syntax, err_range, parse_uint, format_uint, format_int,
}
use jotpot_server.Jps.Range.{Range, start_end}
use jotpot_server.Http.Header.{Header, get_values, get_value, set_values, add}
use jotpot_server.Http.Message.{set_alone, del_alone, last_value}
use jotpot_server.Http.Ranges.{cut, to_uint64}

pub data MetadataError : Type 0 where
  err_range_too_large err_multiple_content_range_headers : MetadataError
  err_malformed_content_range_header err_multiple_content_location_headers : MetadataError
  err_multiple_content_type_headers err_multiple_last_modified_headers : MetadataError
  err_too_many_content_length err_range_not_satisfiable : MetadataError
  err_malformed_content_length bad_number : NumError → MetadataError

abbrev pub values_of : Bytes → Header → List Bytes
values_of key h = (get_values h key).1

abbrev pub content_range : Bytes
content_range = codes "Content-Range"

abbrev pub content_length : Bytes
content_length = codes "Content-Length"

abbrev pub transfer_encoding : Bytes
transfer_encoding = codes "Transfer-Encoding"

-- What ParseUint returns beside an error: 0, or the largest number of 63 bits.
abbrev pub uint_value : ℕ ⊎ NumError → ℕ
uint_value (inl n) = n
uint_value (inr err_syntax) = 0
uint_value (inr err_range) = 2 ^ 63 - 1

abbrev pub uint_error : ℕ ⊎ NumError → Option NumError
uint_error (inl n) = none
uint_error (inr e) = some e

-- Whether there is a Content-Range, its range and its size, and the error.
pub record ContentRange : Type 0 where
  pub has : Bool
  pub range_str : Bytes
  pub size_str : Bytes
  pub err : Option MetadataError

abbrev pub no_parts : Bool → Option MetadataError → ContentRange
no_parts has err = record { has = has; range_str = []; size_str = []; err = err }

-- One value of the header.
unfoldable pub split_value : Bytes → Option ContentRange
split_value cr =
    if ltb (length cr) 6
    then none
    else if not (equal (take 6 cr) (codes "bytes "))
    then some (no_parts true none)
    else elim (cut b'/' (drop 6 cr)) [
      | none ↦ some (no_parts true (some err_malformed_content_range_header))
      | some (range_str, size_str) ↦
          some (record { has = true; range_str = range_str; size_str = size_str; err = none })
    ]

abbrev pub split_values : List Bytes → Option ContentRange
split_values [] = some (no_parts false none)
split_values (cr ∷ []) = split_value cr
split_values (cr ∷ _ ∷ _) = some (no_parts true (some err_multiple_content_range_headers))

unfoldable pub split_content_range : Header → Option ContentRange
split_content_range h = split_values (values_of content_range h)

-- A number of 63 bits with its error.
abbrev pub number : (NumError → MetadataError) → Bytes → ℤ × Option MetadataError
number wrap s = elim (parse_uint 63 s) [
  | inl n ↦ (pos n, none)
  | inr e ↦ (pos (uint_value (inr e)), some (wrap e))
]

abbrev pub is_star : Bytes → Bool
is_star s = equal s (codes "*")

-- The size that the Content-Range gives.
abbrev pub size_of_range : ContentRange → ℤ × Option MetadataError
size_of_range cr = elim cr.err [
  | some e ↦ (negsuc 0, some e)
  | none ↦
      if is_star cr.size_str
      then (
        negsuc 0,
        if is_star cr.range_str then some err_malformed_content_range_header else none,
      )
      else number bad_number cr.size_str
]

abbrev pub size_of_lengths : List Bytes → ℤ × Option MetadataError
size_of_lengths [] = (negsuc 0, none)
size_of_lengths (l ∷ []) = number err_malformed_content_length l
size_of_lengths (_ ∷ _ ∷ _) = (negsuc 0, some err_too_many_content_length)

unfoldable pub size : Header → Option (ℤ × Option MetadataError)
unfolding split_content_range
size h = elim (split_content_range h) [
  | none ↦ none
  | some cr ↦
      some (if cr.has then size_of_range cr else size_of_lengths (values_of content_length h))
]

abbrev pub ends_chunked : List Bytes → Bool
ends_chunked vs = elim (last_value vs) [ none ↦ false | some v ↦ equal v (codes "chunked") ]

unfoldable pub remove_content_length : Header → Header
remove_content_length h =
    let h' = del_alone content_length h in
    if ends_chunked (values_of transfer_encoding h')
    then h'
    else add (λ m. m) transfer_encoding (codes "chunked") h'

-- codes[:last]
abbrev pub without_last : List Bytes → List Bytes
without_last [] = []
without_last (v ∷ []) = []
without_last (v ∷ w ∷ vs) = v ∷ without_last (w ∷ vs)

unfoldable pub set_content_length : ℤ → Header → Header
set_content_length l h =
    let h' = set_alone content_length (format_int l) h in
    let vs = values_of transfer_encoding h' in
    if ends_chunked vs then set_values (λ m. m) transfer_encoding (without_last vs) h' else h'

unfoldable pub set_content_range : Bytes → Bytes → Header → Header
set_content_range r size_str h = set_alone content_range (codes "bytes " ++ r ++ b'/' ∷ size_str) h

-- A size below -1 panics.
abbrev pub size_string : ℤ → Option Bytes
size_string (pos n) = some (format_uint n)
size_string (negsuc ℕ.zero) = some (codes "*")
size_string (negsuc (ℕ.suc n)) = none

abbrev pub set_length_or_remove : ℤ → Header → Option Header
set_length_or_remove (pos n) h = some (set_content_length (pos n) h)
set_length_or_remove (negsuc ℕ.zero) h = some (remove_content_length h)
set_length_or_remove (negsuc (ℕ.suc n)) h = none

unfoldable pub set_size : ℤ → Header → Option (Header × Option MetadataError)
unfolding split_content_range
set_size n h = elim (split_content_range h) [
  | none ↦ none
  | some cr ↦
      if cr.has
      then (elim (size_string n) [
        | none ↦ none
        | some s ↦ some (set_content_range cr.range_str s h, cr.err)
      ])
      else (elim (set_length_or_remove n h) [ none ↦ none | some h' ↦ some (h', none) ])
]

-- The positions that `Range` reads; only a start that is no number ends it at once.
abbrev pub read_positions : Bytes → Bytes → Range × Option MetadataError
read_positions s e = elim (parse_uint 63 s) [
  | inr err_syntax ↦
      (record { start = pos 0; end = negsuc 0 }, some err_malformed_content_range_header)
  | inr err_range ↦ elim (parse_uint 63 e) [
    | inl n ↦ (record { start = pos (2 ^ 63 - 1); end = pos n }, some (bad_number err_range))
    | inr e' ↦
        (record { start = pos (2 ^ 63 - 1); end = pos (uint_value (inr e')) }, some (bad_number e'))
  ]
  | inl m ↦ let (n, err) = number bad_number e in (record { start = pos m; end = n }, err)
]

abbrev pub all_bytes : Range
all_bytes = record { start = pos 0; end = negsuc 0 }

abbrev pub range_of : ContentRange → Range × Option MetadataError
range_of cr = if not cr.has || is_star cr.range_str then (all_bytes, cr.err) else elim cr.err [
  | some e ↦ (all_bytes, some e)
  | none ↦ elim (cut b'-' cr.range_str) [
    | none ↦ (all_bytes, some err_malformed_content_range_header)
    | some (s, e) ↦ read_positions s e
  ]
]

unfoldable pub range : Header → Option (Range × Option MetadataError)
unfolding split_content_range
range h = elim (split_content_range h) [ none ↦ none | some cr ↦ some (range_of cr) ]

abbrev pub positions : ℤ → ℤ → Bytes
positions start end = format_uint (to_uint64 start) ++ b'-' ∷ format_uint (to_uint64 end)

-- `SetRange` once the size is known.
unfoldable pub set_sized_range :
    Range → ℕ → Option MetadataError → Header → Header × Option MetadataError
set_sized_range r n err h =
    let (start, end) = start_end r (pos n) in
    if is_negative start || is_negative end then (h, some err_range_too_large) else (
      set_content_length (wrap_int64 (wrap_int64 (end -ℤ start) +ℤ pos 1))
          (set_content_range (positions start end) (format_uint n) h),
      err,
    )

unfoldable pub set_unsized_range :
    Range → Option MetadataError → Header → Header × Option MetadataError
set_unsized_range r err h =
    if is_negative r.start || is_negative r.end
    then (elim err [
      | some e ↦ (h, some e)
      | none ↦ (set_content_range (codes "*") (codes "*") h, some err_range_not_satisfiable)
    ])
    else (
      set_content_length (wrap_int64 (wrap_int64 (r.end -ℤ r.start) +ℤ pos 1))
          (set_content_range (positions r.start r.end) (codes "*") h),
      err,
    )

unfoldable pub set_range : Range → Header → Option (Header × Option MetadataError)
unfolding set_sized_range set_unsized_range
set_range r h = elim (size h) [
  | none ↦ none
  | some (pos n, err) ↦ some (set_sized_range r n err h)
  | some (negsuc n, err) ↦ some (set_unsized_range r err h)
]
