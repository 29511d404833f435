-- ===== src/Http/Cache/Directive.antt =====
-- Directives of the Cache-Control header (http/cache-control.go). `strings.ToLower` is a parameter.
pub mod RoundTrip
use jotpot_server.Base.{
  ℕ, ◌+◌, ◌≡◌, Bool, true, false, Option, none, some, List, [], ◌∷◌, ◌++◌, ◌==◌, if◌then◌else◌,
  Bytes, equal,
}
use jotpot_server.Http.Quoted.{
  QuoteError, format_token_or_quoted_string, parse_full_quoted_string_no_starting_quote, quote,
}
use jotpot_server.Http.Ranges.{cut}

-- No argument is the empty argument.
pub record CacheControlDirective : Type 0 where
  pub name : Bytes
  pub arg : Bytes

abbrev pub equals_sign : ℕ
equals_sign = 61

unfoldable pub header_string : (Bytes → Bytes) → CacheControlDirective → Bytes × Option QuoteError
header_string to_lower d =
    if equal d.arg []
    then (to_lower d.name, none)
    else (let (arg, err) = format_token_or_quoted_string d.arg in
        (d.name ++ equals_sign ∷ arg, err))

-- The error of the argument, which is parsed only if it begins with a quote; `none` is a panic.
unfoldable pub argument_error : Bytes → Option (Option QuoteError)
argument_error [] = some none
argument_error (c ∷ arg) =
    if c == quote
    then (elim (parse_full_quoted_string_no_starting_quote arg) [
      | none ↦ none
      | some (text, err) ↦ some err
    ])
    else some none

-- The directive has the argument as it is written: what the parser reads from it is not used.
unfoldable pub parse_directive : Bytes → Option (CacheControlDirective × Option QuoteError)
parse_directive s = elim (cut equals_sign s) [
  | none ↦ some (record { name = s; arg = [] }, none)
  | some (name, arg) ↦ elim (argument_error arg) [
    | none ↦ none
    | some err ↦ some (record { name = name; arg = arg }, err)
  ]
]

-- `make([]CacheControlDirective, n)`: n directives of no name.
unfoldable pub blanks : List Bytes → List CacheControlDirective
blanks [] = []
blanks (s ∷ dstrs) = record { name = []; arg = [] } ∷ blanks dstrs

-- The loop, which appends to `ds` and ends at an error.
unfoldable pub parse_each :
    List CacheControlDirective
    → List Bytes
    → Option (List CacheControlDirective × Option QuoteError)
parse_each ds [] = some (ds, none)
parse_each ds (s ∷ dstrs) = elim (parse_directive s) [
  | none ↦ none
  | some (d, some err) ↦ some (ds ++ d ∷ [], some err)
  | some (d, none) ↦ parse_each (ds ++ d ∷ []) dstrs
]

unfoldable pub parse_directives :
    List Bytes → Option (List CacheControlDirective × Option QuoteError)
parse_directives dstrs = parse_each (blanks dstrs) dstrs
