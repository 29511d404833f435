-- ===== src/Http/Ranges.antt =====
-- The Range header (http/request.go): FormatRange, FormatRanges and ParseRangeHeader.
pub mod Fuel
pub mod Spec
pub mod RoundTrip
use jotpot_server.Base.{
  ℕ, zero, suc, ◌+◌, ◌-◌, ◌%◌, ◌^◌, ◌≡◌, ◌⊎◌, inl, inr, Bool, true, false, Option, none, some, List,
  [], ◌∷◌, ◌++◌, ltb, ◌==◌, if◌then◌else◌, Bytes, equal, codes, length, take, drop,
}
use jotpot_server.Base.Int.{ℤ, pos, negsuc, ◌-ℤ◌, is_negative, eq_ℤ, wrap_int64}
use jotpot_server.Base.Decimal.{NumError, err_syntax, err_range, format_uint, parse_uint}
use jotpot_server.Jps.Range.{Range}

abbrev pub dash : ℕ
dash = 45

abbrev pub comma : ℕ
comma = 44

-- The only error of FormatRange: "range not supported by HTTP".
pub data FormatError : Type 0 where
  err_not_supported : FormatError

-- uint64(z).
abbrev pub to_uint64 : ℤ → ℕ
to_uint64 (pos n) = n % 2 ^ 64
to_uint64 (negsuc n) = 2 ^ 64 - 1 - n % 2 ^ 64

unfoldable pub format_range : Range → Bytes × Option FormatError
format_range r =
    if is_negative r.start
    then (if eq_ℤ r.end (negsuc 0)
        then (dash ∷ format_uint (to_uint64 (wrap_int64 (pos 0 -ℤ r.start))), none)
        else ([], some err_not_supported))
    else if is_negative r.end
    then (if eq_ℤ r.end (negsuc 0)
        then (format_uint (to_uint64 r.start) ++ dash ∷ [], none)
        else ([], some err_not_supported))
    else (format_uint (to_uint64 r.start) ++ dash ∷ format_uint (to_uint64 r.end), none)

-- The loop of FormatRanges: at an error it keeps what was written before.
unfoldable pub format_more : Bytes → List Range → Bytes × Option FormatError
format_more out [] = (out, none)
format_more out (r ∷ ranges) =
    let (rs, err) = format_range r in
    elim err [ none ↦ format_more (out ++ comma ∷ rs) ranges | some e ↦ (out, some e) ]

unfoldable pub format_ranges : List Range → Bytes × Option FormatError
format_ranges [] = ([], none)
format_ranges (r ∷ ranges) =
    let (rs, err) = format_range r in
    elim err [ none ↦ format_more rs ranges | some e ↦ ([], some e) ]

-- The errors of ParseRangeHeader: HTTP 416 for a number that does not fit, HTTP 400 for all else.
pub data RangeError : Type 0 where
  err_range_not_satisfiable err_malformed_number err_bytes_range_spec_must_contain_dash : RangeError

-- What ParseRangeHeader returns (no ranges and no error stands for nil, nil too); the panic of v[:6]
-- on a shorter value; or the end of the model's fuel.
pub data ParsedRanges : Type 0 where
  parsed : List Range → Option RangeError → ParsedRanges
  panic out_of_fuel : ParsedRanges

-- v[:i] and v[i+1:] for the index i of the byte's first occurrence.
unfoldable pub cut : ℕ → Bytes → Option (Bytes × Bytes)
cut b [] = none
cut b (c ∷ v) =
    let rest = cut b v in
    if c == b
    then some ([], v)
    else elim rest [ none ↦ none | some parts ↦ some (c ∷ parts.0, parts.1) ]

unfoldable pub number_error : NumError → RangeError
number_error err_range = err_range_not_satisfiable
number_error err_syntax = err_malformed_number

-- The number in `v`, or the return with its error.
unfoldable pub with_number : Bytes → List Range → (ℕ → ParsedRanges) → ParsedRanges
with_number v out next = elim (parse_uint 63 v) [
  | inl n ↦ next n
  | inr e ↦ parsed out (some (number_error e))
]

-- The index behind the dash; nothing there means the last byte.
unfoldable pub with_end : Bytes → List Range → (ℤ → ParsedRanges) → ParsedRanges
with_end [] out next = next (negsuc 0)
with_end (c ∷ v) out next = with_number (c ∷ v) out (λ n. next (pos n))

-- `-b`: the last b bytes. `next` goes on behind the comma.
unfoldable pub parse_suffix :
    Bytes → List Range → (Bytes → List Range → ParsedRanges) → ParsedRanges
parse_suffix v out next = elim (cut comma v) [
  | none ↦ with_number v out (λ n.
      parsed (out ++ record { start = wrap_int64 (pos 0 -ℤ pos n); end = negsuc 0 } ∷ []) none)
  | some (number, rest) ↦
      with_number number out (λ n.
        next rest (out ++ record { start = wrap_int64 (pos 0 -ℤ pos n); end = negsuc 0 } ∷ []))
]

-- `a-b` or `a-`, behind the dash.
unfoldable pub parse_end :
    ℕ → Bytes → List Range → (Bytes → List Range → ParsedRanges) → ParsedRanges
parse_end start v out next = elim (cut comma v) [
  | none ↦ with_end v out (λ end. parsed (out ++ record { start = pos start; end = end } ∷ []) none)
  | some (number, rest) ↦
      with_end number out (λ end. next rest (out ++ record { start = pos start; end = end } ∷ []))
]

-- One round of the loop.
unfoldable pub parse_spec : Bytes → List Range → (Bytes → List Range → ParsedRanges) → ParsedRanges
parse_spec v out next = elim (cut dash v) [
  | none ↦ parsed out (some err_bytes_range_spec_must_contain_dash)
  | some ([], rest) ↦ parse_suffix rest out next
  | some (c ∷ first, rest) ↦ with_number (c ∷ first) out (λ start. parse_end start rest out next)
]

unfoldable pub parse_specs : ℕ → Bytes → List Range → ParsedRanges
parse_specs zero v out = out_of_fuel
parse_specs (suc fuel) v out = parse_spec v out (parse_specs fuel)

abbrev pub unit_prefix : Bytes
unit_prefix = codes "bytes="

unfoldable pub parse_range_header : Bytes → ParsedRanges
parse_range_header v =
    if ltb (length v) 6
    then panic
    else if equal (take 6 v) unit_prefix
    then parse_specs (suc (length (drop 6 v))) (drop 6 v) []
    else parsed [] none
