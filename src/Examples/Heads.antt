-- ===== src/Examples/Heads.antt =====
-- Runs and theorems of the heads of messages at concrete inputs.
use mathlib.Core.List.{reverse, reverse_perm, Perm}
use mathlib.Core.List.Perm
use jotpot_server.Base.{
  ℕ, ◌≡◌, refl, Bool, true, false, Option, some, none, List, [], ◌∷◌, ◌++◌, codes, Bytes, All, all,
  inl, arith, Store, &&_parts,
}
use jotpot_server.Http.Chars.{is_whitespace, is_token_char, is_v_char}
use jotpot_server.Http.Heads.{
  eof, parse_headers, returned, panicked, format_headers, write_headers,
  err_illegal_character_in_header_value, read_bytes, headers_from, short_line, read_field,
  read_value, split_key, scan_key, split_blanks, value_from, scan_value, next_place, at_head,
  at_line_end, next_line,
}
use jotpot_server.Http.Heads.Fields.{HeaderField, IsField, field_line}
use jotpot_server.Http.Heads.Lines.{reader}
use jotpot_server.Http.Heads.RoundTrip.{field_lines, add_fields, parse_headers-field_lines}
use jotpot_server.Http.Heads.Written.{
  IsPlain, add_joined, Takes, all_bytes, header_lines, parse_headers-format_headers,
  write_headers-format_headers,
}
use jotpot_server.Http.Heads.Text.{IsKey, Folded}
use jotpot_server.Http.Heads.Safety.{Ensures, parse_headers-Ensures}
use jotpot_server.Http.Heads.Errors.{
  lines_before, ShortWord, short_word_line, IsShortWord, parse_headers-truncated,
  parse_headers-short_word,
}

-- A test that all bytes pass is evaluated.
pub all→All : (p : ℕ → Bool) (v : Bytes) → all p v ≡ true → All (λ b. p b ≡ true) v
all→All p [] h = tt
all→All p (b ∷ v) h = let (x, y) = &&_parts (p b) (all p v) h in (x, all→All p v y)

abbrev pub Pairs : Type 0
Pairs = List (Bytes × Bytes)

-- The adder keeps what is added.
abbrev pub keep : Bytes → Bytes → Pairs → Pairs
keep key v h = (key, v) ∷ h

abbrev pub host : HeaderField
host = record {
  key = codes "Host";
  before = codes " ";
  first = codes "example.org";
  later = [];
  after = [];
}

abbrev pub agent : HeaderField
agent = record {
  key = codes "User-Agent";
  before = [];
  first = codes "Foo/1";
  later = record { gap = codes " "; word = codes "(Bar)" } ∷ [];
  after = codes " ";
}

pub host-IsField : IsField host
unfolding is_token_char is_v_char is_whitespace
host-IsField = record {
  key_tokens = all→All is_token_char (codes "Host") refl;
  key_starts = omega arith;
  before_blank = all→All is_whitespace (codes " ") refl;
  first_word = all→All is_v_char (codes "example.org") refl;
  later_words = tt;
  after_blank = tt;
  has_words = inl (omega arith);
}

pub agent-IsField : IsField agent
unfolding is_token_char is_v_char is_whitespace
agent-IsField = record {
  key_tokens = all→All is_token_char (codes "User-Agent") refl;
  key_starts = omega arith;
  before_blank = tt;
  first_word = all→All is_v_char (codes "Foo/1") refl;
  later_words = (
    record {
      gap_blank = all→All is_whitespace (codes " ") refl;
      has_gap = omega arith;
      word_v_chars = all→All is_v_char (codes "(Bar)") refl;
      has_word = omega arith;
      long = inl (omega arith);
    },
    tt,
  );
  after_blank = all→All is_whitespace (codes " ") refl;
  has_words = inl (omega arith);
}

parse_headers-field_lines_example :
    parse_headers keep (reader (field_lines (host ∷ agent ∷ []) ++ codes "body") eof) []
    ≡ returned (add_fields keep (host ∷ agent ∷ []) []) (reader (codes "body") eof) none false
parse_headers-field_lines_example =
    parse_headers-field_lines keep (host ∷ agent ∷ []) (codes "body") eof []
      (host-IsField, (agent-IsField, tt))

abbrev entries : Store (List Bytes)
entries = (codes "Accept", codes "a" ∷ codes "b/c" ∷ []) ∷ (codes "Empty", []) ∷ []

entries-IsPlain : All IsPlain entries
unfolding is_token_char is_v_char
entries-IsPlain = (
  record {
    key_tokens = all→All is_token_char (codes "Accept") refl;
    key_starts = omega arith;
    values_words = (
      (all→All is_v_char (codes "a") refl, omega arith),
      ((all→All is_v_char (codes "b/c") refl, omega arith), tt),
    );
  },
  (
    record {
      key_tokens = all→All is_token_char (codes "Empty") refl;
      key_starts = omega arith;
      values_words = tt;
    },
    tt,
  ),
)

parse_headers-format_headers_example :
    parse_headers keep (reader (format_headers entries ++ (13 ∷ 10 ∷ codes "body")) eof) []
    ≡ returned (add_joined keep entries []) (reader (codes "body") eof) none false
parse_headers-format_headers_example =
    parse_headers-format_headers keep entries (codes "body") eof [] entries-IsPlain

-- The value that is read back.
joined_values : add_joined keep entries [] ≡ (codes "Accept", codes "a, b/c") ∷ []
joined_values = refl

abbrev swallow : Bytes → Bytes → Bytes × Option ℕ
swallow p w = (w ++ p, none)

swallow-Takes : Takes swallow (λ w. w)
swallow-Takes = record { takes = λ p w. refl; no_error = λ p w. refl }

-- A map of three keys, and the same in another order.
abbrev hosted : Store (List Bytes)
hosted = (codes "Host", codes "h" ∷ []) ∷ entries

abbrev reordered : Store (List Bytes)
reordered = reverse hosted

write_headers-format_headers_example :
    ((write_headers swallow hosted (codes "x")).0 ≡ codes "x" ++ all_bytes (header_lines hosted))
    × ((write_headers swallow hosted (codes "x")).1 ≡ none)
    × (format_headers reordered ≡ all_bytes (header_lines reordered))
    × Perm (header_lines hosted) (header_lines reordered)
write_headers-format_headers_example =
    write_headers-format_headers swallow-Takes hosted reordered (codes "x")
      (Perm.symm (reverse_perm hosted))

-- A folded value, and the names and values that are added from it.
abbrev folded : Bytes
folded = codes "A: b" ++ 13 ∷ 10 ∷ codes " c" ++ 13 ∷ 10 ∷ 13 ∷ 10 ∷ []

folded_read :
    parse_headers keep (reader folded eof) []
    ≡ returned ((codes "A", codes "b" ++ 13 ∷ 10 ∷ codes " c") ∷ []) (reader [] eof) none false
unfolding parse_headers headers_from short_line read_field read_value split_key scan_key
    split_blanks value_from scan_value next_place at_head at_line_end next_line read_bytes
    is_token_char is_v_char is_whitespace
folded_read = refl

abbrev AreSafe : Pairs → Type 0
AreSafe [] = Unit
AreSafe ((key, v) ∷ h) = (IsKey key × Folded v) × AreSafe h

AreSafe-keep :
    (key v : Bytes) (h : Pairs) → IsKey key → Folded v → AreSafe h → AreSafe (keep key v h)
AreSafe-keep key v h k f s = ((k, f), s)

parse_headers-Ensures_example : Ensures AreSafe (parse_headers keep (reader folded eof) [])
parse_headers-Ensures_example =
    parse_headers-Ensures keep AreSafe AreSafe-keep (reader folded eof) [] tt

parse_headers-truncated_example :
    parse_headers keep (reader (lines_before (agent ∷ []) (field_line host)) eof) [] ≡ panicked
parse_headers-truncated_example =
    parse_headers-truncated keep (agent ∷ []) host eof [] (agent-IsField, tt) host-IsField refl

-- "Accept: text/html; q = 1"
abbrev spaced : ShortWord
spaced = record {
  key = codes "Accept";
  before = codes " ";
  start = b't';
  first = codes "ext/html;";
  blank = b' ';
  gap = [];
  letter = b'q';
  next = b' ';
  more = codes "= 1" ++ 13 ∷ [];
}

spaced-IsShortWord : IsShortWord spaced
unfolding is_token_char is_v_char is_whitespace
spaced-IsShortWord = record {
  key_tokens = all→All is_token_char (codes "Accept") refl;
  key_starts = omega arith;
  before_blank = all→All is_whitespace (codes " ") refl;
  first_word = all→All is_v_char (codes "text/html;") refl;
  gap_blank = all→All is_whitespace (codes " ") refl;
  letter_v_char = refl;
  next_blank = refl;
  more_in_line = (refl, (refl, (refl, (refl, tt))));
}

parse_headers-short_word_example :
    parse_headers keep
      (reader (lines_before (host ∷ []) (short_word_line spaced ++ 10 ∷ codes "rest")) eof)
      []
    ≡ returned
        (add_fields keep (host ∷ []) [])
        (reader (codes "rest") eof)
        (some err_illegal_character_in_header_value)
        true
parse_headers-short_word_example =
    parse_headers-short_word keep (host ∷ []) spaced (codes "rest") eof [] (host-IsField, tt)
      spaced-IsShortWord
