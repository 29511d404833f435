-- ===== src/Base/Decimal.antt =====
-- What the code uses of Go's strconv: FormatUint, FormatInt, ParseInt, and ParseUint for a number
-- of bits, all in base 10.
use jotpot_server.Base.{
  ℕ, zero, suc, ◌+◌, ◌-◌, ◌*◌, ◌/◌, ◌%◌, ◌^◌, ◌≤◌, ◌<◌, ◌≡◌, refl, ◌∙◌, ◌⊎◌, inl, inr, ◌&&◌, [],
  ◌∷◌, arith, ltb, leb, ◌==◌, if◌then◌else◌, Bytes, All, Bool-cases, Bool, true, false, Option,
  none, some,
}
use jotpot_server.Base.Int.{ℤ, pos, negsuc, sub_ℕ}

-- The digits of n before `tail`; n rounds of fuel are enough.
unfoldable pub format_digits : ℕ → ℕ → Bytes → Bytes
format_digits zero n tail = (48 + n % 10) ∷ tail
format_digits (suc fuel) n tail =
    let rest = format_digits fuel (n / 10) ((48 + n % 10) ∷ tail) in
    if ltb n 10 then (48 + n) ∷ tail else rest

unfoldable pub format_uint : ℕ → Bytes
format_uint n = format_digits n n []

pub data NumError : Type 0 where
  err_syntax err_range : NumError

unfoldable pub parse_digits : ℕ → ℕ → Bytes → ℕ ⊎ NumError
parse_digits bits n [] = inl n
parse_digits bits n (c ∷ cs) =
    let rest = parse_digits bits (n * 10 + (c - 48)) cs in
    if leb 48 c && leb c 57
    then (if ltb (n * 10 + (c - 48)) (2 ^ bits) then rest else inr err_range)
    else inr err_syntax

unfoldable pub parse_uint : ℕ → Bytes → ℕ ⊎ NumError
parse_uint bits [] = inr err_syntax
parse_uint bits (c ∷ cs) = parse_digits bits 0 (c ∷ cs)

pub record IsDigit (c : ℕ) : Type 0 where
  pub above : 48 ≤ c
  pub below : c ≤ 57

parse_digits-digit :
    (bits n d m : ℕ) (cs : Bytes)
    → d < 10
    → n * 10 + d ≡ m
    → m < 2 ^ bits
    → parse_digits bits n ((48 + d) ∷ cs) ≡ parse_digits bits m cs
unfolding parse_digits
parse_digits-digit bits n d m cs h e k =
    let p : n * 10 + (48 + d - 48) ≡ m = omega (arith, e) in rw p (ground (arith, h, k))

parse-format_digits :
    (bits fuel n : ℕ) (tail : Bytes)
    → n ≤ fuel
    → n < 2 ^ bits
    → parse_digits bits 0 (format_digits fuel n tail) ≡ parse_digits bits n tail
unfolding format_digits
parse-format_digits bits zero n tail h b =
    parse_digits-digit bits 0 (n % 10) n tail (omega arith) (omega (arith, h)) b
parse-format_digits bits (suc fuel) n tail h b = elim (Bool-cases (ltb n 10)) [
  | inl e ↦ rw e (parse_digits-digit bits 0 n n tail (ground (arith, e)) (omega arith) b)
  | inr e ↦
      let ge : 10 ≤ n = ground (arith, e) in
      rw e (
        parse-format_digits bits fuel (n / 10) ((48 + n % 10) ∷ tail) (omega (arith, h, ge))
          (omega (arith, b))
        ∙ parse_digits-digit bits (n / 10) (n % 10) n tail (omega arith) (omega arith) b)
]

-- A number is written as digits, at least one.
pub data Digits : Bytes → Type 0 where
  digits : (c : ℕ) (cs : Bytes) → IsDigit c → All IsDigit cs → Digits (c ∷ cs)

format_digits-Digits :
    (fuel n : ℕ) (tail : Bytes) → All IsDigit tail → Digits (format_digits fuel n tail)
unfolding format_digits
format_digits-Digits zero n tail h =
    digits (48 + n % 10) tail (record { above = omega arith; below = omega arith }) h
format_digits-Digits (suc fuel) n tail h = elim (Bool-cases (ltb n 10)) [
  | inl e ↦
      let small : n < 10 = ground (arith, e) in
      rw e (digits (48 + n) tail (record { above = omega arith; below = omega (arith, small) }) h)
  | inr e ↦ rw e (
      format_digits-Digits fuel (n / 10) ((48 + n % 10) ∷ tail)
        (record { above = omega arith; below = omega arith }, h))
]

pub format_uint-Digits : (n : ℕ) → Digits (format_uint n)
unfolding format_uint
format_uint-Digits n = format_digits-Digits n n [] tt

parse_uint-Digits : (bits : ℕ) (s : Bytes) → Digits s → parse_uint bits s ≡ parse_digits bits 0 s
unfolding parse_uint
parse_uint-Digits bits [] d = elim d [ ]
parse_uint-Digits bits (c ∷ cs) d = refl

pub parse-format_uint : (bits n : ℕ) → n < 2 ^ bits → parse_uint bits (format_uint n) ≡ inl n
unfolding format_uint parse_digits
parse-format_uint bits n h =
    parse_uint-Digits bits (format_uint n) (format_uint-Digits n)
    ∙ parse-format_digits bits n n [] (omega arith) h

-- What ParseInt returns for 64 bits: the value, which is the nearest int64 where the number is out
-- of range, and the error. A sign may stand first.
unfoldable pub signed_value : Bool → ℕ ⊎ NumError → ℤ × Option NumError
signed_value negative (inr err_syntax) = (pos 0, some err_syntax)
signed_value false (inr err_range) = (pos (2 ^ 63 - 1), some err_range)
signed_value true (inr err_range) = (negsuc (2 ^ 63 - 1), some err_range)
signed_value false (inl n) =
    if ltb n (2 ^ 63) then (pos n, none) else (pos (2 ^ 63 - 1), some err_range)
signed_value true (inl n) =
    if leb n (2 ^ 63) then (sub_ℕ 0 n, none) else (negsuc (2 ^ 63 - 1), some err_range)

unfoldable pub parse_int : Bytes → ℤ × Option NumError
unfolding signed_value
parse_int [] = (pos 0, some err_syntax)
parse_int (c ∷ cs) =
    if c == 45
    then signed_value true (parse_uint 64 cs)
    else if c == 43
    then signed_value false (parse_uint 64 cs)
    else signed_value false (parse_uint 64 (c ∷ cs))

-- FormatInt in base 10.
unfoldable pub format_int : ℤ → Bytes
format_int (pos n) = format_uint n
format_int (negsuc n) = 45 ∷ format_uint (suc n)

parse_int-Digits : (s : Bytes) → Digits s → parse_int s ≡ signed_value false (parse_uint 64 s)
unfolding parse_int
parse_int-Digits _ (digits c cs d ds) =
    let not_minus : (c == 45) ≡ false = ground (arith, d.above) in
    let not_plus : (c == 43) ≡ false = ground (arith, d.above) in rw (not_minus, not_plus) refl

-- A number that is not negative and fits is read back.
pub parse_int-format_uint : (n : ℕ) → n < 2 ^ 63 → parse_int (format_uint n) ≡ (pos n, none)
unfolding signed_value
parse_int-format_uint n h =
    let fits : ltb n (2 ^ 63) ≡ true = ground (arith, h) in
    parse_int-Digits (format_uint n) (format_uint-Digits n)
    ∙ rw (parse-format_uint 64 n (omega (arith, h))) (rw fits refl)
