-- ===== src/Http/Ranges/Spec.antt =====
-- One range that FormatRange writes, as a round of the parser reads it.
use jotpot_server.Base.{
  ℕ, suc, ◌%◌, ◌^◌, ◌<◌, ◌≡◌, refl, ap, ◌∙◌, false, none, some, List, [], ◌∷◌, ◌++◌, append_assoc,
  ◌==◌, Bytes, All, arith,
}
use jotpot_server.Base.Int.{ℤ, pos, negsuc, ◌-ℤ◌, wrap_int64}
use jotpot_server.Base.Decimal.{
  format_uint, IsDigit, Digits, digits, format_uint-Digits, parse-format_uint,
}
use jotpot_server.Jps.Range.{Range}
use jotpot_server.Http.Ranges.{
  dash, comma, to_uint64, format_range, ParsedRanges, parsed, cut, with_number, with_end,
  parse_suffix, parse_end, parse_spec,
}

pub All-Digits : (s : Bytes) → Digits s → All IsDigit s
All-Digits _ (digits c s d ds) = (d, ds)

pub cut-here :
    (b : ℕ) (first rest : Bytes)
    → All IsDigit first
    → b < 48
    → cut b (first ++ b ∷ rest) ≡ some (first, rest)
unfolding cut
cut-here b [] rest d l = ground arith
cut-here b (c ∷ first) rest d l =
    let other : (c == b) ≡ false = ground (arith, d.0.above, l) in
    rw (other, cut-here b first rest d.1 l) refl

cut-nowhere : (b : ℕ) (s : Bytes) → All IsDigit s → b < 48 → cut b s ≡ none
unfolding cut
cut-nowhere b [] d l = refl
cut-nowhere b (c ∷ s) d l =
    let other : (c == b) ≡ false = ground (arith, d.0.above, l) in
    rw (other, cut-nowhere b s d.1 l) refl

-- The ranges that FormatRange can write and ParseRangeHeader reads back: their numbers have 63 bits.
pub data IsRepresentable : Range → Type 0 where
  bounded :
      (a b : ℕ) → a < 2 ^ 63 → b < 2 ^ 63 → IsRepresentable (record { start = pos a; end = pos b })
  open_ended : (a : ℕ) → a < 2 ^ 63 → IsRepresentable (record { start = pos a; end = negsuc 0 })
  suffix : (n : ℕ) → suc n < 2 ^ 63 → IsRepresentable (record { start = negsuc n; end = negsuc 0 })

-- What a round of the parser does with the text of a range, at the end or before a comma.
pub record IsReadBack (r : Range) : Type 0 where
  pub text : Bytes
  pub formatted : format_range r ≡ (text, none)
  pub at_end :
      (out : List Range) (next : Bytes → List Range → ParsedRanges)
      → parse_spec text out next ≡ parsed (out ++ r ∷ []) none
  pub at_comma :
      (rest : Bytes) (out : List Range) (next : Bytes → List Range → ParsedRanges)
      → parse_spec (text ++ comma ∷ rest) out next ≡ next rest (out ++ r ∷ [])

with_number-format :
    (n : ℕ) (out : List Range) (next : ℕ → ParsedRanges)
    → n < 2 ^ 63
    → with_number (format_uint n) out next ≡ next n
unfolding with_number
with_number-format n out next h = rw (parse-format_uint 63 n h, with_number) refl

with_end-Digits :
    (s : Bytes) (out : List Range) (next : ℤ → ParsedRanges)
    → Digits s
    → with_end s out next ≡ with_number s out (λ n. next (pos n))
unfolding with_end
with_end-Digits [] out next d = elim d [ ]
with_end-Digits (c ∷ s) out next d = refl

parse_spec-start :
    (first rest : Bytes) (out : List Range) (next : Bytes → List Range → ParsedRanges)
    → Digits first
    → parse_spec (first ++ dash ∷ rest) out next
      ≡ with_number first out (λ start. parse_end start rest out next)
unfolding parse_spec
parse_spec-start [] rest out next d = elim d [ ]
parse_spec-start (c ∷ first) rest out next d =
    rw (cut-here dash (c ∷ first) rest (All-Digits (c ∷ first) d) (omega arith), parse_spec) refl

read_start :
    (a : ℕ) (rest : Bytes) (out : List Range) (next : Bytes → List Range → ParsedRanges)
    → a < 2 ^ 63
    → parse_spec (format_uint a ++ dash ∷ rest) out next ≡ parse_end a rest out next
read_start a rest out next h =
    parse_spec-start (format_uint a) rest out next (format_uint-Digits a)
    ∙ with_number-format a out (λ start. parse_end start rest out next) h

-- What follows the dash, at the end or before a comma.
record IsEndRead (e : ℤ) (text : Bytes) : Type 0 where
  at_end :
      (a : ℕ) (out : List Range) (next : Bytes → List Range → ParsedRanges)
      → parse_end a text out next ≡ parsed (out ++ record { start = pos a; end = e } ∷ []) none
  at_comma :
      (a : ℕ) (rest : Bytes) (out : List Range) (next : Bytes → List Range → ParsedRanges)
      → parse_end a (text ++ comma ∷ rest) out next
        ≡ next rest (out ++ record { start = pos a; end = e } ∷ [])

number-IsEndRead : (b : ℕ) → b < 2 ^ 63 → IsEndRead (pos b) (format_uint b)
unfolding parse_end
number-IsEndRead b h =
    let d = format_uint-Digits b in
    let ds = All-Digits (format_uint b) d in
    record {
      at_end = λ a out next.
          let k : ℤ → ParsedRanges =
            λ e. parsed (out ++ record { start = pos a; end = e } ∷ []) none in
          rw (cut-nowhere comma (format_uint b) ds (omega arith), parse_end)
            (with_end-Digits (format_uint b) out k d ∙ with_number-format b out (λ n. k (pos n)) h);
      at_comma = λ a rest out next.
          let k : ℤ → ParsedRanges =
            λ e. next rest (out ++ record { start = pos a; end = e } ∷ []) in
          rw (cut-here comma (format_uint b) rest ds (omega arith), parse_end)
            (with_end-Digits (format_uint b) out k d ∙ with_number-format b out (λ n. k (pos n)) h);
    }

nothing-IsEndRead : IsEndRead (negsuc 0) []
unfolding parse_end cut with_end
nothing-IsEndRead = record { at_end = λ a out next. refl; at_comma = λ a rest out next. refl }

start-IsReadBack :
    (a : ℕ) (e : ℤ) (text : Bytes)
    → a < 2 ^ 63
    → IsEndRead e text
    → format_range (record { start = pos a; end = e }) ≡ (format_uint a ++ dash ∷ text, none)
    → IsReadBack (record { start = pos a; end = e })
start-IsReadBack a e text h r f = record {
  text = format_uint a ++ dash ∷ text;
  formatted = f;
  at_end = λ out next. read_start a text out next h ∙ r.at_end a out next;
  at_comma = λ rest out next.
      rw (append_assoc (format_uint a) (dash ∷ text) (comma ∷ rest))
        (read_start a (text ++ comma ∷ rest) out next h ∙ r.at_comma a rest out next);
}

negated : (n : ℕ) → suc n < 2 ^ 63 → to_uint64 (wrap_int64 (pos 0 -ℤ negsuc n)) ≡ suc n
unfolding wrap_int64 ◌-ℤ◌
negated n h = ground (arith, h)

negated_back : (n : ℕ) → suc n < 2 ^ 63 → wrap_int64 (pos 0 -ℤ pos (suc n)) ≡ negsuc n
unfolding wrap_int64 ◌-ℤ◌
negated_back n h = ground (arith, h)

suffix-IsReadBack :
    (n : ℕ) → suc n < 2 ^ 63 → IsReadBack (record { start = negsuc n; end = negsuc 0 })
unfolding format_range parse_spec parse_suffix cut
suffix-IsReadBack n h =
    let ds = All-Digits (format_uint (suc n)) (format_uint-Digits (suc n)) in
    record {
      text = dash ∷ format_uint (suc n);
      formatted = rw (negated n h) refl;
      at_end = λ out next.
          let k : ℕ → ParsedRanges = λ m.
            parsed (out ++ record { start = wrap_int64 (pos 0 -ℤ pos m); end = negsuc 0 } ∷ [])
              none in
          rw (cut-nowhere comma (format_uint (suc n)) ds (omega arith), parse_suffix)
            (with_number-format (suc n) out k h
              ∙ ap (λ z. parsed (out ++ record { start = z; end = negsuc 0 } ∷ []) none)
                  (negated_back n h));
      at_comma = λ rest out next.
          let k : ℕ → ParsedRanges = λ m.
            next rest
              (out ++ record { start = wrap_int64 (pos 0 -ℤ pos m); end = negsuc 0 } ∷ []) in
          rw (cut-here comma (format_uint (suc n)) rest ds (omega arith), parse_suffix)
            (with_number-format (suc n) out k h
              ∙ ap (λ z. next rest (out ++ record { start = z; end = negsuc 0 } ∷ []))
                  (negated_back n h));
    }

fits : (n : ℕ) → n < 2 ^ 63 → n % 2 ^ 64 ≡ n
fits n h = omega (arith, h)

pub IsRepresentable-IsReadBack : (r : Range) → IsRepresentable r → IsReadBack r
unfolding format_range
IsRepresentable-IsReadBack r (bounded a b h k) =
    start-IsReadBack a (pos b) (format_uint b) h (number-IsEndRead b k)
      (rw (fits a h, fits b k) refl)
IsRepresentable-IsReadBack r (open_ended a h) =
    start-IsReadBack a (negsuc 0) [] h nothing-IsEndRead (rw (fits a h) refl)
IsRepresentable-IsReadBack r (suffix n h) = suffix-IsReadBack n h
