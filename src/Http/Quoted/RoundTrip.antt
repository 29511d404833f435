-- ===== src/Http/Quoted/RoundTrip.antt =====
-- What `FormatTokenOrQuotedString` writes, `ParseFullQuotedString` reads back.
use mathlib.Core.List.{append_assoc, append-nil}
use jotpot_server.Base.{
  ℕ, ◌+◌, ◌≤◌, ◌<◌, ◌≡◌, ◌⊎◌, refl, ap₂, &&_parts, ◌∙◌, arith, inl, inr, Bool, true, false, not,
  ◌||◌, Bool-cases, none, some, [], ◌∷◌, ◌++◌, if◌then◌else◌, Bytes, length, length-append, all,
  ltb,
}
use jotpot_server.Http.Chars.{
  is_qd_text, is_quoted_pair_char, is_token_char, decode_rune, decode_rune_ascii, decode_two,
  is_token_char-ltb,
}
use jotpot_server.Http.Quoted.{
  parsed, panic, parse_from, parse_quoted_string_no_starting_quote,
  parse_full_quoted_string_no_starting_quote, parse_full_quoted_string, rune_starts, format_from,
  format_token_or_quoted_string, quote, backslash, err_invalid_character,
}

-- The bytes between the quotes.
escape : Bytes → Bytes
escape [] = []
escape (c ∷ cs) = if is_qd_text c then c ∷ escape cs else backslash ∷ c ∷ escape cs

abbrev pub is_ascii : ℕ → Bool
is_ascii b = ltb b 0x80

is_token_char-is_qd_text : (c : ℕ) → is_token_char c ≡ true → is_qd_text c ≡ true
unfolding is_token_char is_qd_text
is_token_char-is_qd_text c h = ground arith

is_qd_text-is_quoted_pair_char : (c : ℕ) → is_qd_text c ≡ true → is_quoted_pair_char c ≡ true
unfolding is_quoted_pair_char is_qd_text
is_qd_text-is_quoted_pair_char c h = ground arith

rune_starts_ascii : (s : Bytes) → all is_ascii s ≡ true → rune_starts 0 s ≡ s
unfolding rune_starts
rune_starts_ascii [] h = refl
rune_starts_ascii (b ∷ s) h = ground (arith, decode_rune_ascii b s, rune_starts_ascii s)

format_from-escape :
    (q : Bool) (out cs : Bytes)
    → all is_quoted_pair_char cs ≡ true
    → format_from q out cs ≡ (q || not (all is_token_char cs), out ++ escape cs, none)
unfolding format_from escape
format_from-escape q out [] h = ground (arith, append-nil out)
format_from-escape q out (c ∷ cs) h = ground (
  arith,
  is_token_char-is_qd_text c,
  format_from-escape q (out ++ c ∷ []) cs,
  format_from-escape true (out ++ c ∷ []) cs,
  format_from-escape true (out ++ backslash ∷ c ∷ []) cs,
  append_assoc out (c ∷ []) (escape cs),
  append_assoc out (backslash ∷ c ∷ []) (escape cs),
)

-- Whether there is an error depends on the bytes alone.
format_from-error :
    (q : Bool) (out cs : Bytes)
    → (format_from q out cs).2
      ≡ (if all is_quoted_pair_char cs then none else some err_invalid_character)
unfolding format_from
format_from-error q out [] = refl
format_from-error q out (c ∷ cs) = ground (
  arith,
  is_token_char-is_qd_text c,
  is_qd_text-is_quoted_pair_char c,
  format_from-error q (out ++ c ∷ []) cs,
  format_from-error true (out ++ c ∷ []) cs,
  format_from-error true (out ++ backslash ∷ c ∷ []) cs,
)

escape_token : (cs : Bytes) → all is_token_char cs ≡ true → escape cs ≡ cs
unfolding escape
escape_token [] h = refl
escape_token (c ∷ cs) h = ground (arith, is_token_char-is_qd_text c, escape_token cs)

parse_from-plain :
    (str : Bytes) (i c : ℕ) (rest : Bytes)
    → is_qd_text c ≡ true
    → parse_from str i (c ∷ rest) ≡ parse_from (str ++ c ∷ []) (i + 1) rest
unfolding parse_from
parse_from-plain str i c [] h = rw h
parse_from-plain str i c (d ∷ rest) h = rw h

parse_from-pair :
    (str : Bytes) (i c : ℕ) (rest : Bytes)
    → is_quoted_pair_char c ≡ true
    → parse_from str i (backslash ∷ c ∷ rest) ≡ parse_from (str ++ c ∷ []) (i + 2) rest
unfolding parse_from is_qd_text
parse_from-pair str i c rest h = rw h

parse_from_end :
    (str : Bytes) (i : ℕ) → parse_from str i (quote ∷ []) ≡ parsed (str ++ []) (i + 0 + 1) none
unfolding parse_from is_qd_text
parse_from_end str i = ground (arith, append-nil str)

parse_from-escape :
    (str : Bytes) (i : ℕ) (cs : Bytes)
    → all is_quoted_pair_char cs ≡ true
    → parse_from str i (escape cs ++ quote ∷ [])
      ≡ parsed (str ++ cs) (i + length (escape cs) + 1) none
unfolding escape
parse_from-escape str i [] h = parse_from_end str i
parse_from-escape str i (c ∷ cs) h = elim (Bool-cases (is_qd_text c)) [
  | inl e ↦
      rw (escape, e)
        (parse_from-plain str i c (escape cs ++ quote ∷ []) e
          ∙ parse_from-escape (str ++ c ∷ []) (i + 1) cs (&&_parts _ _ h).1
          ∙ ap₂ (λ l n. parsed l n none) (append_assoc str (c ∷ []) cs) (omega arith))
  | inr e ↦
      rw (escape, e)
        (parse_from-pair str i c (escape cs ++ quote ∷ []) (&&_parts _ _ h).0
          ∙ parse_from-escape (str ++ c ∷ []) (i + 2) cs (&&_parts _ _ h).1
          ∙ ap₂ (λ l n. parsed l n none) (append_assoc str (c ∷ []) cs) (omega arith))
]

parse_full-escape :
    (cs : Bytes)
    → all is_quoted_pair_char cs ≡ true
    → parse_full_quoted_string (quote ∷ escape cs ++ quote ∷ []) ≡ some (cs, none)
unfolding parse_full_quoted_string parse_full_quoted_string_no_starting_quote
    parse_quoted_string_no_starting_quote
parse_full-escape cs h =
    rw (parse_from-escape [] 0 cs h, parse_full_quoted_string_no_starting_quote)
      (ground (arith, length-append (escape cs) (quote ∷ [])))

-- A string of ASCII bytes that may stand in a quoted string is written as it is if they are all
-- token characters, and is else written as a quoted string that `ParseFullQuotedString` reads back
-- to it, with no error.
pub parse-format :
    (s : Bytes)
    → all is_ascii s ≡ true
    → all is_quoted_pair_char s ≡ true
    → ((all is_token_char s ≡ true) × (format_token_or_quoted_string s ≡ (s, none)))
      ⊎ ((out : Bytes) × (all is_token_char s ≡ false)
          × (format_token_or_quoted_string s ≡ (out, none))
          × (parse_full_quoted_string out ≡ some (s, none)))
unfolding format_token_or_quoted_string
parse-format s h k = elim (Bool-cases (all is_token_char s)) [
  | inl e ↦
      inl (e, rw (rune_starts_ascii s h, format_from-escape false [] s k, e, escape_token s e))
  | inr e ↦ inr (
    quote ∷ escape s ++ quote ∷ [],
    e,
    rw (rune_starts_ascii s h, format_from-escape false [] s k, e),
    parse_full-escape s k,
  )
]

-- Token characters may stand in a quoted string, and are ASCII.
token_string_chars :
    (s : Bytes)
    → all is_token_char s ≡ true
    → (all is_ascii s ≡ true) × (all is_quoted_pair_char s ≡ true)
token_string_chars [] h = (refl, refl)
token_string_chars (c ∷ s) h = ground (
  arith,
  token_string_chars s,
  is_token_char-ltb c,
  is_token_char-is_qd_text c,
  is_qd_text-is_quoted_pair_char c,
)

-- A string of token characters is written as it is.
pub format_token :
    (s : Bytes) → all is_token_char s ≡ true → format_token_or_quoted_string s ≡ (s, none)
unfolding format_token_or_quoted_string
format_token s h =
    let (ascii, pair) = token_string_chars s h in
    rw (rune_starts_ascii s ascii, format_from-escape false [] s pair, h, escape_token s h)

-- `FormatTokenOrQuotedString` reports an invalid character for an ASCII string exactly when some
-- byte of it can stand in no quoted string.
pub format-error :
    (s : Bytes)
    → all is_ascii s ≡ true
    → (format_token_or_quoted_string s).1
      ≡ (if all is_quoted_pair_char s then none else some err_invalid_character)
unfolding format_token_or_quoted_string
format-error s h = rw (rune_starts_ascii s h) (ground (arith, format_from-error false [] s))

two_byte_width :
    (b c : ℕ) → 0xC2 ≤ b → b < 0xE0 → 0x80 ≤ c → c ≤ 0xBF → (decode_rune b (c ∷ [])).width ≡ 2
unfolding decode_rune decode_two
two_byte_width b c h k l m = ground arith

obs_text_class : (b : ℕ) → 0x80 ≤ b → (is_token_char b ≡ false) × (is_qd_text b ≡ true)
unfolding is_token_char is_qd_text
obs_text_class b h = ground arith

-- The bytes of a rune behind its first are left out: a rune of two bytes is written as its first
-- byte in quotes, with no error.
pub format_two_byte_rune :
    (b c : ℕ)
    → 0xC2 ≤ b
    → b < 0xE0
    → 0x80 ≤ c
    → c ≤ 0xBF
    → format_token_or_quoted_string (b ∷ c ∷ []) ≡ (quote ∷ b ∷ quote ∷ [], none)
unfolding format_token_or_quoted_string rune_starts format_from
format_two_byte_rune b c h k l m =
    rw (two_byte_width b c h k l m) (ground (arith, obs_text_class b))

parse_from-trailing_backslash :
    (str : Bytes) (i : ℕ) (s : Bytes)
    → all is_qd_text s ≡ true
    → parse_from str i (s ++ backslash ∷ []) ≡ panic
parse_from-trailing_backslash str i [] h = unfold parse_from is_qd_text in refl
parse_from-trailing_backslash str i (c ∷ s) h =
    parse_from-plain str i c (s ++ backslash ∷ []) (&&_parts _ _ h).0
    ∙ parse_from-trailing_backslash (str ++ c ∷ []) (i + 1) s (&&_parts _ _ h).1

-- A quoted string that ends in a backslash, behind plain text, is read out of bounds: a panic.
pub parse_full_trailing_backslash :
    (s : Bytes)
    → all is_qd_text s ≡ true
    → parse_full_quoted_string (quote ∷ s ++ backslash ∷ []) ≡ none
unfolding parse_full_quoted_string parse_full_quoted_string_no_starting_quote
    parse_quoted_string_no_starting_quote
parse_full_trailing_backslash s h =
    rw (parse_from-trailing_backslash [] 0 s h, parse_full_quoted_string_no_starting_quote)
