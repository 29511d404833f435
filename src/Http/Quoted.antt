-- ===== src/Http/Quoted.antt =====
-- Quoted strings (http/httpchars/quotedString.go).
pub mod RoundTrip
use jotpot_server.Base.{
  ℕ, zero, suc, ◌+◌, ◌-◌, ◌≡◌, Bool, true, false, not, Option, none, some, List, [], ◌∷◌, ◌++◌,
  ◌==◌, if◌then◌else◌, Bytes, length,
}
use jotpot_server.Http.Chars.{is_qd_text, is_quoted_pair_char, is_token_char, decode_rune, Rune}

pub data QuoteError : Type 0 where
  err_no_starting_quotes err_no_ending_quotes err_malformed_quoted_string err_invalid_character :
      QuoteError

-- The results of `ParseQuotedString…`: the text, the index and the error; or the panic of an index
-- out of range.
pub data Parsed : Type 0 where
  parsed : Bytes → ℕ → Option QuoteError → Parsed
  panic : Parsed

abbrev pub quote : ℕ
quote = 34

abbrev pub backslash : ℕ
backslash = 92

-- The loop: `str` is the text so far and the last argument is qstr[i:].
unfoldable pub parse_from : Bytes → ℕ → Bytes → Parsed
parse_from str i [] = parsed str i (some err_no_ending_quotes)
parse_from str i (c ∷ []) =
    if is_qd_text c
    then parsed (str ++ c ∷ []) (i + 1) (some err_no_ending_quotes)
    else if c == backslash
    then panic
    else if c == quote
    then parsed str (i + 1) none
    else parsed str i (some err_malformed_quoted_string)
parse_from str i (c ∷ d ∷ rest) =
    let plain = parse_from (str ++ c ∷ []) (i + 1) (d ∷ rest) in
    let pair = parse_from (str ++ d ∷ []) (i + 2) rest in
    if is_qd_text c
    then plain
    else if c == backslash
    then (if is_quoted_pair_char d
        then pair
        else parsed str (i + 1) (some err_malformed_quoted_string))
    else if c == quote
    then parsed str (i + 1) none
    else parsed str i (some err_malformed_quoted_string)

unfoldable pub parse_quoted_string_no_starting_quote : Bytes → Parsed
parse_quoted_string_no_starting_quote qstr = parse_from [] 0 qstr

unfoldable pub parse_quoted_string : Bytes → Parsed
parse_quoted_string [] = parsed [] 0 (some err_no_starting_quotes)
parse_quoted_string (c ∷ qstr) =
    if c == quote
    then parse_quoted_string_no_starting_quote qstr
    else parsed [] 0 (some err_no_starting_quotes)

-- The text and the error, or `none` for a panic.
unfoldable pub parse_full_quoted_string_no_starting_quote :
    Bytes → Option (Bytes × Option QuoteError)
parse_full_quoted_string_no_starting_quote qstr =
    elim (parse_quoted_string_no_starting_quote qstr) [
      | parsed str end err ↦
          some (str, (if end == length qstr then err else some err_malformed_quoted_string))
      | panic ↦ none
    ]

unfoldable pub parse_full_quoted_string : Bytes → Option (Bytes × Option QuoteError)
parse_full_quoted_string [] = some ([], some err_no_starting_quotes)
parse_full_quoted_string (c ∷ qstr) =
    if c == quote
    then parse_full_quoted_string_no_starting_quote qstr
    else some ([], some err_no_starting_quotes)

-- The bytes at which the runes of a string begin, which `for i := range str` visits.
unfoldable pub rune_starts : ℕ → Bytes → Bytes
rune_starts skip [] = []
rune_starts (suc skip) (b ∷ s) = rune_starts skip s
rune_starts zero (b ∷ s) = b ∷ rune_starts ((decode_rune b s).width - 1) s

-- The loop of `FormatTokenOrQuotedString`, with `out` without its first byte.
unfoldable pub format_from : Bool → Bytes → Bytes → Bool × Bytes × Option QuoteError
format_from is_quoted out [] = (is_quoted, out, none)
format_from is_quoted out (c ∷ cs) =
    let token = format_from is_quoted (out ++ c ∷ []) cs in
    let plain = format_from true (out ++ c ∷ []) cs in
    let pair = format_from true (out ++ backslash ∷ c ∷ []) cs in
    if is_token_char c
    then token
    else if is_qd_text c
    then plain
    else if is_quoted_pair_char c
    then pair
    else (is_quoted, out, some err_invalid_character)

unfoldable pub format_token_or_quoted_string : Bytes → Bytes × Option QuoteError
format_token_or_quoted_string str =
    let (is_quoted, out, err) = format_from false [] (rune_starts 0 str) in
    if is_quoted then (quote ∷ out ++ quote ∷ [], err) else (out, err)
