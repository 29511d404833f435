-- ===== src/Http/Chars.antt =====
-- The classes of bytes of http/httpchars/characters.go, and Go's `range` over a string.
pub mod Tokens
pub mod Whitespace
use jotpot_server.Base.{
  ℕ, zero, suc, ◌+◌, ◌-◌, ◌*◌, ◌%◌, Bool, true, false, ◌&&◌, ◌||◌, List, [], ◌∷◌, ltb, leb, ◌==◌,
  if◌then◌else◌, Bytes, ◌≡◌, refl, arith, ◌≤◌, ◌<◌, ◌⊎◌,
}

unfoldable pub is_whitespace : ℕ → Bool
is_whitespace b = b == b' ' || b == 9

unfoldable pub is_digit : ℕ → Bool
is_digit b = leb b'0' b && leb b b'9'

unfoldable pub is_alpha : ℕ → Bool
is_alpha b = (leb b'a' b && leb b b'z') || (leb b'A' b && leb b b'Z')

unfoldable pub is_v_char : ℕ → Bool
is_v_char b = leb 0x21 b && leb b 0x7E

unfoldable pub is_obs_text : ℕ → Bool
is_obs_text b = leb 0x80 b

unfoldable pub is_field_char : ℕ → Bool
unfolding is_obs_text is_v_char
is_field_char b = is_obs_text b || is_v_char b

unfoldable pub is_quoted_pair_char : ℕ → Bool
unfolding is_obs_text is_v_char
is_quoted_pair_char b = is_v_char b || b == 34 || b == 92 || b == b' ' || b == 9 || is_obs_text b

unfoldable pub is_qd_text : ℕ → Bool
unfolding is_obs_text
is_qd_text b =
    (leb 0x5D b && leb b 0x7E)
    || (leb 0x23 b && leb b 0x5B)
    || b == b' '
    || b == b'!'
    || b == 9
    || is_obs_text b

unfoldable pub is_token_char : ℕ → Bool
unfolding is_alpha is_digit
is_token_char b =
    is_alpha b
    || is_digit b
    || b == b'-'
    || b == b'*'
    || (leb 35 b && leb b 39)
    || b == b'!'
    || b == b'+'
    || b == b'.'
    || b == b'^'
    || b == b'_'
    || b == 96
    || b == b'|'
    || b == b'~'

unfoldable pub is_token_rune : ℕ → Bool
is_token_rune r = if leb r 255 then is_token_char (r % 256) else false

-- What `range` reads at a rune's start: the rune and how many bytes it takes. A byte that begins no
-- well-formed UTF-8 sequence is the rune U+FFFD of one byte.
pub record Rune : Type 0 where
  pub value : ℕ
  pub width : ℕ

abbrev pub bad_rune : Rune
bad_rune = record { value = 0xFFFD; width = 1 }

abbrev pub is_continuation : ℕ → ℕ → ℕ → Bool
is_continuation lo hi b = leb lo b && leb b hi

-- The rest of a rune, from its first byte: how many bytes follow, and the range of the second.
unfoldable pub decode_two : ℕ → Bytes → Rune
decode_two b (c ∷ _) =
    if is_continuation 0x80 0xBF c
    then record { value = b % 32 * 64 + c % 64; width = 2 }
    else bad_rune
decode_two b [] = bad_rune

unfoldable pub decode_three : ℕ → ℕ → ℕ → Bytes → Rune
decode_three lo hi b (c ∷ d ∷ _) =
    if is_continuation lo hi c && is_continuation 0x80 0xBF d
    then record { value = b % 16 * 4096 + c % 64 * 64 + d % 64; width = 3 }
    else bad_rune
decode_three lo hi b _ = bad_rune

unfoldable pub decode_four : ℕ → ℕ → ℕ → Bytes → Rune
decode_four lo hi b (c ∷ d ∷ e ∷ _) =
    if is_continuation lo hi c && is_continuation 0x80 0xBF d && is_continuation 0x80 0xBF e
    then record { value = b % 8 * 262144 + c % 64 * 4096 + d % 64 * 64 + e % 64; width = 4 }
    else bad_rune
decode_four lo hi b _ = bad_rune

unfoldable pub decode_rune : ℕ → Bytes → Rune
decode_rune b rest =
    if ltb b 0x80
    then record { value = b; width = 1 }
    else if ltb b 0xC2
    then bad_rune
    else if ltb b 0xE0
    then decode_two b rest
    else if b == 0xE0
    then decode_three 0xA0 0xBF b rest
    else if b == 0xED
    then decode_three 0x80 0x9F b rest
    else if ltb b 0xF0
    then decode_three 0x80 0xBF b rest
    else if b == 0xF0
    then decode_four 0x90 0xBF b rest
    else if ltb b 0xF4
    then decode_four 0x80 0xBF b rest
    else if b == 0xF4
    then decode_four 0x80 0x8F b rest
    else bad_rune

-- An ASCII byte is a rune of its own.
pub decode_rune_ascii :
    (b : ℕ) (rest : Bytes)
    → ltb b 0x80 ≡ true
    → decode_rune b rest ≡ record { value = b; width = 1 }
unfolding decode_rune
decode_rune_ascii b rest h = rw h

-- Every token character is ASCII.
pub is_token_char-ltb : (b : ℕ) → is_token_char b ≡ true → ltb b 0x80 ≡ true
unfolding is_token_char
is_token_char-ltb b h = ground arith

is_token_rune_large : (r : ℕ) → 128 ≤ r → is_token_rune r ≡ false
unfolding is_token_rune
is_token_rune_large r h = ground (arith, is_token_char-ltb (r % 256))

decode_two_large : (b : ℕ) (rest : Bytes) → 0xC2 ≤ b → b < 0xE0 → 128 ≤ (decode_two b rest).value
unfolding decode_two
decode_two_large b [] h k = omega arith
decode_two_large b (c ∷ _) h k = ground arith

decode_three_large :
    (lo hi b : ℕ) (rest : Bytes)
    → (0xE1 ≤ b) ⊎ (0xA0 ≤ lo)
    → 0xE0 ≤ b
    → b < 0xF0
    → hi ≤ 0xBF
    → 128 ≤ (decode_three lo hi b rest).value
unfolding decode_three
decode_three_large lo hi b [] o h k l = omega arith
decode_three_large lo hi b (c ∷ []) o h k l = omega arith
decode_three_large lo hi b (c ∷ d ∷ _) o h k l = ground arith

decode_four_large :
    (lo hi b : ℕ) (rest : Bytes)
    → (0xF1 ≤ b) ⊎ (0x90 ≤ lo)
    → 0xF0 ≤ b
    → b < 0xF5
    → hi ≤ 0xBF
    → 128 ≤ (decode_four lo hi b rest).value
unfolding decode_four
decode_four_large lo hi b [] o h k l = omega arith
decode_four_large lo hi b (c ∷ []) o h k l = omega arith
decode_four_large lo hi b (c ∷ d ∷ []) o h k l = omega arith
decode_four_large lo hi b (c ∷ d ∷ e ∷ _) o h k l = ground arith

decode_rune_large : (b : ℕ) (rest : Bytes) → ltb b 0x80 ≡ false → 128 ≤ (decode_rune b rest).value
unfolding decode_rune
decode_rune_large b rest h = ground (
  arith,
  decode_two_large b rest,
  decode_three_large 0xA0 0xBF b rest,
  decode_three_large 0x80 0x9F b rest,
  decode_three_large 0x80 0xBF b rest,
  decode_four_large 0x90 0xBF b rest,
  decode_four_large 0x80 0xBF b rest,
  decode_four_large 0x80 0x8F b rest,
)

-- A rune that begins with another byte is no token character.
pub decode_rune_other :
    (b : ℕ) (rest : Bytes) → ltb b 0x80 ≡ false → is_token_rune (decode_rune b rest).value ≡ false
decode_rune_other b rest h = is_token_rune_large _ (decode_rune_large b rest h)

pub decode_rune_token :
    (b : ℕ) (rest : Bytes) → is_token_rune (decode_rune b rest).value ≡ is_token_char b
unfolding is_token_rune
decode_rune_token b rest =
    ground (arith, decode_rune_ascii b rest, decode_rune_other b rest, is_token_char-ltb b)
