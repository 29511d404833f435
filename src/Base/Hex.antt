-- ===== src/Base/Hex.antt =====
-- What the code uses of Go's strconv.ParseUint in base 16, for a number of bits.
use jotpot_server.Base.{
  ℕ, ◌+◌, ◌-◌, ◌*◌, ◌^◌, ◌⊎◌, inl, inr, ◌&&◌, Option, none, some, [], ◌∷◌, ltb, leb, if◌then◌else◌,
  Bytes,
}
use jotpot_server.Base.Decimal.{NumError, err_syntax, err_range}

unfoldable pub hex_digit : ℕ → Option ℕ
hex_digit c =
    if leb b'0' c && leb c b'9'
    then some (c - b'0')
    else if leb b'a' c && leb c b'f'
    then some (c - b'a' + 10)
    else if leb b'A' c && leb c b'F'
    then some (c - b'A' + 10)
    else none

unfoldable pub parse_hex_digits : ℕ → ℕ → Bytes → ℕ ⊎ NumError
parse_hex_digits bits n [] = inl n
parse_hex_digits bits n (c ∷ cs) = elim (hex_digit c) [
  | none ↦ inr err_syntax
  | some d ↦
      let rest = parse_hex_digits bits (n * 16 + d) cs in
      if ltb (n * 16 + d) (2 ^ bits) then rest else inr err_range
]

unfoldable pub parse_hex : ℕ → Bytes → ℕ ⊎ NumError
parse_hex bits [] = inr err_syntax
parse_hex bits (c ∷ cs) = parse_hex_digits bits 0 (c ∷ cs)
