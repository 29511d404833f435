-- ===== src/Examples/Http.antt =====
-- Runs and theorems of the HTTP packages at concrete inputs.
use jotpot_server.Base.{◌≡◌, ◌⊎◌, refl, true, false, some, none, codes, all, Bytes}
use jotpot_server.Http.Chars.{is_quoted_pair_char, is_token_char, is_whitespace}
use jotpot_server.Http.Chars.Whitespace.{
  remove_whitespace, remove_whitespace_prefix, remove_whitespace_postfix, postfix_end,
}
use jotpot_server.Http.Quoted.{format_token_or_quoted_string, parse_full_quoted_string}
use jotpot_server.Http.Quoted.RoundTrip.{parse-format}

abbrev words : Bytes
words = codes "a \"b\""

remove_whitespace-words : remove_whitespace (codes "  a b ") ≡ codes "a b"
unfolding remove_whitespace remove_whitespace_prefix remove_whitespace_postfix postfix_end
    is_whitespace
remove_whitespace-words = refl

parse-format_example :
    ((all is_token_char words ≡ true) × (format_token_or_quoted_string words ≡ (words, none)))
    ⊎ ((out : Bytes) × (all is_token_char words ≡ false)
        × (format_token_or_quoted_string words ≡ (out, none))
        × (parse_full_quoted_string out ≡ some (words, none)))
parse-format_example = parse-format words refl (unfold is_quoted_pair_char in refl)
