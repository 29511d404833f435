-- ===== src/Http/Metadata/Fields.antt =====
-- Setting the range and the size of a resource, and reading them back (http/http1/metadata.go).
use mathlib.Core.List.{append-nil}
use jotpot_server.Base.{
  ℕ, suc, ◌^◌, ◌<◌, ◌≡◌, refl, ap, sym, ◌∙◌, arith, true, false, none, some, List, [], ◌∷◌, ◌++◌,
  ltb, ◌==◌, Bytes, equal, codes, length, All, All-append, inl, inr, lookup, ap₂, Option-cases,
  Bool-cases,
}
use jotpot_server.Base.Int.{ℤ, pos, negsuc, ◌+ℤ◌, ◌-ℤ◌, wrap_int64}
use jotpot_server.Base.Decimal.{
  IsDigit, Digits, digits, format_uint, format_int, format_uint-Digits, parse-format_uint,
}
use jotpot_server.Jps.Range.{Range, start_end}
use jotpot_server.Http.Header.{
  Header, get_key, get_key_safe, get_values, set_values, set_value, get_values_raw_key,
}
use jotpot_server.Http.Header.Values.{
  get_values-set_values, locked, processed, is_lower, IsLower, KeepsLower,
}
use jotpot_server.Http.Message.{set_alone}
use jotpot_server.Http.Ranges.{cut, to_uint64}
use jotpot_server.Http.Metadata.{
  values_of, content_range, content_length, transfer_encoding, ContentRange, split_value,
  split_values, split_content_range, size, ends_chunked, without_last, set_content_length,
  set_content_range, range, range_of, size_of_range, read_positions, number, positions, is_star,
  set_sized_range, set_range,
}

digits-IsLower : (s : Bytes) → All IsDigit s → IsLower s
digits-IsLower [] h = tt
digits-IsLower (c ∷ s) h = (ground (arith, h.0.above, h.0.below), digits-IsLower s h.1)

pub uint-IsLower : (n : ℕ) → IsLower (format_uint n)
uint-IsLower n = Digits-lower (format_uint n) (format_uint-Digits n)
  where
    Digits-lower : (s : Bytes) → Digits s → IsLower s
    Digits-lower _ (digits c cs k ks) = digits-IsLower (c ∷ cs) (k, ks)

pub int-IsLower : (z : ℤ) → IsLower (format_int z)
unfolding format_int
int-IsLower (pos n) = uint-IsLower n
int-IsLower (negsuc n) = (refl, uint-IsLower (suc n))

cut_absent :
    (b : ℕ) (s rest : Bytes)
    → All (λ c. (c == b) ≡ false) s
    → cut b (s ++ b ∷ rest) ≡ some (s, rest)
unfolding cut
cut_absent b [] rest h = ground arith
cut_absent b (c ∷ s) rest h = rw (h.0, cut_absent b s rest h.1) refl

-- A byte below the digits.
digits_absent : (b : ℕ) (s : Bytes) → b < 48 → All IsDigit s → All (λ c. (c == b) ≡ false) s
digits_absent b [] h k = tt
digits_absent b (c ∷ s) h k = (ground (arith, k.0.above, h), digits_absent b s h k.1)

Digits-absent : (b : ℕ) (s : Bytes) → b < 48 → Digits s → All (λ c. (c == b) ≡ false) s
Digits-absent b _ h (digits c cs k ks) = digits_absent b (c ∷ cs) h (k, ks)

number_absent : (b n : ℕ) → b < 48 → All (λ c. (c == b) ≡ false) (format_uint n)
number_absent b n h = Digits-absent b (format_uint n) h (format_uint-Digits n)

-- What begins with a number is not "*".
Digits-is_star : (s rest : Bytes) → Digits s → is_star (s ++ rest) ≡ false
Digits-is_star _ rest (digits c cs k ks) = ground (arith, k.above)

-- Two numbers with a dash between them.
abbrev pub spaced : ℕ → ℕ → Bytes
spaced a b = format_uint a ++ b'-' ∷ format_uint b

spaced-IsLower : (a b n : ℕ) → IsLower (spaced a b ++ b'/' ∷ format_uint n)
spaced-IsLower a b n =
    All-append (λ c. is_lower c ≡ true) (spaced a b) (b'/' ∷ format_uint n)
      (All-append (λ c. is_lower c ≡ true) (format_uint a) (b'-' ∷ format_uint b) (uint-IsLower a)
        (refl, uint-IsLower b))
      (refl, uint-IsLower n)

positions-spaced : (a b : ℕ) → a < 2 ^ 63 → b < 2 ^ 63 → positions (pos a) (pos b) ≡ spaced a b
positions-spaced a b h k =
    let p : to_uint64 (pos a) ≡ a = omega (arith, h) in
    let q : to_uint64 (pos b) ≡ b = omega (arith, k) in
    ap₂ (λ x y. format_uint x ++ b'-' ∷ format_uint y) p q

-- A Content-Range of two positions and a size, of numbers.
abbrev pub numbers : ℕ → ℕ → ℕ → ContentRange
numbers a b n = record { has = true; range_str = spaced a b; size_str = format_uint n; err = none }

spaced_absent : (a b : ℕ) → All (λ c. (c == b'/') ≡ false) (spaced a b)
spaced_absent a b =
    All-append (λ c. (c == b'/') ≡ false) (format_uint a) (b'-' ∷ format_uint b)
      (number_absent b'/' a (omega arith)) (refl, number_absent b'/' b (omega arith))

split_value-numbers :
    (a b n : ℕ)
    → split_value (codes "bytes " ++ spaced a b ++ b'/' ∷ format_uint n) ≡ some (numbers a b n)
unfolding split_value
split_value-numbers a b n =
    let long : ltb (length (codes "bytes " ++ spaced a b ++ b'/' ∷ format_uint n)) 6 ≡ false =
      ground arith in
    rw (split_value, long, cut_absent b'/' (spaced a b) (format_uint n) (spaced_absent a b)) refl

range_of-numbers :
    (a b n : ℕ)
    → a < 2 ^ 63
    → b < 2 ^ 63
    → range_of (numbers a b n) ≡ (record { start = pos a; end = pos b }, none)
range_of-numbers a b n h k =
    let star = Digits-is_star (format_uint a) (b'-' ∷ format_uint b) (format_uint-Digits a) in
    rw
      (
        range_of,
        star,
        cut_absent b'-' (format_uint a) (format_uint b) (number_absent b'-' a (omega arith)),
      )
      (rw (read_positions, parse-format_uint 63 a h) (rw (number, parse-format_uint 63 b k) refl))

size_of_range-numbers : (a b n : ℕ) → n < 2 ^ 63 → size_of_range (numbers a b n) ≡ (pos n, none)
size_of_range-numbers a b n h =
    let star =
      ap is_star (sym (append-nil (format_uint n)))
      ∙ Digits-is_star (format_uint n) [] (format_uint-Digits n) in
    rw (size_of_range, star) (rw (number, parse-format_uint 63 n h) refl)

-- The processors leave values alone that have no upper case letters, and the keys of the three fields
-- stay different.
pub record KeepsKeys (h : Header) : Type 0 where
  pub keeps_lower : KeepsLower h.processor
  pub range_length :
      equal (get_key h.processor content_range) (get_key h.processor content_length) ≡ false
  pub range_encoding :
      equal (get_key h.processor content_range) (get_key h.processor transfer_encoding) ≡ false
  pub length_encoding :
      equal (get_key h.processor content_length) (get_key h.processor transfer_encoding) ≡ false

pub locked_alone : (key : Bytes) (m : List (Bytes × List Bytes)) → locked (λ n. n) key m ≡ m
locked_alone key m = elim (Option-cases (lookup key m)) [
  | inl e ↦ rw (locked, e) refl
  | inr (vs, e) ↦ rw (locked, e) refl
]

-- What the setters without other goroutines do to the values of each key.
module _ (h : Header) where
  pub values_set :
      (key : Bytes) (vs : List Bytes)
      → processed h.processor key vs ≡ vs
      → values_of key (set_values (λ m. m) key vs h) ≡ vs
  values_set key vs e = (get_values-set_values (λ m. m) key key vs h).0 ∙ e

  pub values_set_other :
      (key other : Bytes) (vs : List Bytes)
      → equal (get_key h.processor other) (get_key h.processor key) ≡ false
      → values_of other (set_values (λ m. m) key vs h) ≡ values_of other h
  unfolding get_values get_key_safe
  values_set_other key other vs d =
      (get_values-set_values (λ m. m) key other vs h).1 d
      ∙ ap (λ m. get_values_raw_key m (get_key h.processor other))
          (locked_alone (get_key h.processor key) h.values)

pub KeepsKeys-set_values :
    (h : Header) (key : Bytes) (vs : List Bytes)
    → KeepsKeys h
    → KeepsKeys (set_values (λ m. m) key vs h)
unfolding set_values
KeepsKeys-set_values h key vs k = record {
  keeps_lower = k.keeps_lower;
  range_length = k.range_length;
  range_encoding = k.range_encoding;
  length_encoding = k.length_encoding;
}

-- Setting the length replaces the Content-Length and keeps the Content-Range.
pub set_content_length-values :
    (l : ℤ) (h : Header)
    → KeepsKeys h
    → (values_of content_length (set_content_length l h) ≡ format_int l ∷ [])
      × (values_of content_range (set_content_length l h) ≡ values_of content_range h)
unfolding set_content_length set_value set_values
set_content_length-values l h k =
    let h' = set_alone content_length (format_int l) h in
    let vs = values_of transfer_encoding h' in
    let set =
      values_set h content_length (format_int l ∷ []) (k.keeps_lower _ _ _ _ (int-IsLower l, tt)) in
    let kept = values_set_other h content_length content_range (format_int l ∷ []) k.range_length in
    elim (Bool-cases (ends_chunked vs)) [
      | inl e ↦
          rw (set_content_length, e)
            (
              values_set_other h' transfer_encoding content_length (without_last vs)
                    k.length_encoding
                  ∙ set,
              values_set_other h' transfer_encoding content_range (without_last vs) k.range_encoding
                  ∙ kept,
            )
      | inr e ↦ rw (set_content_length, e) (set, kept)
    ]

set_range-sized :
    (r : Range) (n a b : ℕ) (h : Header)
    → size h ≡ some (pos n, none)
    → start_end r (pos n) ≡ (pos a, pos b)
    → set_range r h
      ≡ some (
        set_content_length
            (wrap_int64 (wrap_int64 (pos b -ℤ pos a) +ℤ pos 1))
            (set_content_range (positions (pos a) (pos b)) (format_uint n) h),
        none,
      )
unfolding set_range set_sized_range
set_range-sized r n a b h s e =
    rw (set_range, s) (rw (set_sized_range, ap (λ q. q.0) e, ap (λ q. q.1) e) refl)

-- What a header with such a Content-Range holds.
split_content_range-numbers :
    (a b n : ℕ) (h : Header)
    → values_of content_range h ≡ (codes "bytes " ++ spaced a b ++ b'/' ∷ format_uint n) ∷ []
    → split_content_range h ≡ some (numbers a b n)
unfolding split_content_range
split_content_range-numbers a b n h e = ap split_values e ∙ split_value-numbers a b n

range-numbers :
    (a b n : ℕ) (h : Header)
    → a < 2 ^ 63
    → b < 2 ^ 63
    → values_of content_range h ≡ (codes "bytes " ++ spaced a b ++ b'/' ∷ format_uint n) ∷ []
    → range h ≡ some (record { start = pos a; end = pos b }, none)
unfolding range
range-numbers a b n h i j e =
    rw (range, split_content_range-numbers a b n h e) (rw (range_of-numbers a b n i j) refl)

size-numbers :
    (a b n : ℕ) (h : Header)
    → n < 2 ^ 63
    → values_of content_range h ≡ (codes "bytes " ++ spaced a b ++ b'/' ∷ format_uint n) ∷ []
    → size h ≡ some (pos n, none)
unfolding size
size-numbers a b n h i e =
    rw (size, split_content_range-numbers a b n h e) (rw (size_of_range-numbers a b n i) refl)

-- What `SetRange` has done to a header whose size was n, for the positions a to b.
pub record HasRange (a b n : ℕ) (h : Header) : Type 0 where
  pub positions_read : range h ≡ some (record { start = pos a; end = pos b }, none)
  pub size_read : size h ≡ some (pos n, none)
  pub length_set :
      values_of content_length h
      ≡ format_int (wrap_int64 (wrap_int64 (pos b -ℤ pos a) +ℤ pos 1)) ∷ []

sized-HasRange :
    (a b n : ℕ) (h : Header) (l : ℤ)
    → KeepsKeys h
    → n < 2 ^ 63
    → a < 2 ^ 63
    → b < 2 ^ 63
    → l ≡ wrap_int64 (wrap_int64 (pos b -ℤ pos a) +ℤ pos 1)
    → HasRange a b n
        (set_content_length l (set_content_range (positions (pos a) (pos b)) (format_uint n) h))
unfolding set_content_range set_value
sized-HasRange a b n h l k i ai bi e =
    let text = codes "bytes " ++ positions (pos a) (pos b) ++ b'/' ∷ format_uint n in
    let g = set_content_range (positions (pos a) (pos b)) (format_uint n) h in
    let kept = set_content_length-values l g (KeepsKeys-set_values h content_range (text ∷ []) k) in
    let same = positions-spaced a b ai bi in
    let lower : IsLower text =
      rw same (refl, (refl, (refl, (refl, (refl, (refl, spaced-IsLower a b n)))))) in
    let written =
      kept.1
      ∙ values_set h content_range (text ∷ []) (k.keeps_lower _ _ _ _ (lower, tt))
      ∙ ap (λ s. (codes "bytes " ++ s ++ b'/' ∷ format_uint n) ∷ []) (positions-spaced a b ai bi) in
    record {
      positions_read = range-numbers a b n (set_content_length l g) ai bi written;
      size_read = size-numbers a b n (set_content_length l g) i written;
      length_set = kept.0 ∙ ap (λ z. format_int z ∷ []) e;
    }

-- If the header's size is known and the range has its two ends in a resource of that size, `SetRange`
-- has no error and leaves a header from which `Range` reads the two positions that `StartEnd` gives,
-- `Size` the same size, and whose Content-Length is the length of the range. The header's processors
-- leave values without upper case letters alone and keep the three fields apart; the numbers are int64.
pub set_range-HasRange :
    (r : Range) (n a b : ℕ) (h : Header)
    → KeepsKeys h
    → size h ≡ some (pos n, none)
    → start_end r (pos n) ≡ (pos a, pos b)
    → n < 2 ^ 63
    → a < 2 ^ 63
    → b < 2 ^ 63
    → (g : Header) × (set_range r h ≡ some (g, none)) × HasRange a b n g
set_range-HasRange r n a b h k s e i ai bi =
    (_, set_range-sized r n a b h s e, sized-HasRange a b n h _ k i ai bi refl)
