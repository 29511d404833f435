-- ===== src/Http/Ranges/RoundTrip.antt =====
-- The ranges that a Range header can carry are read back as they were written, and the parser's fuel
-- is enough.
use jotpot_server.Base.{
  ℕ, zero, suc, ◌≤◌, ◌<◌, ◌≡◌, equal, ◌==◌, Bool-cases, ltb, refl, sym, ap, ◌∙◌, ◌⊎◌, inl, inr,
  false, none, List, [], ◌∷◌, ◌++◌, append_assoc, Bytes, length, All, arith, length-append,
}
use jotpot_server.Jps.Range.{Range}
use jotpot_server.Http.Ranges.{
  comma, dash, format_range, format_more, format_ranges, parsed, panic, parse_specs, unit_prefix,
  parse_range_header,
}
use jotpot_server.Base.Decimal.{format_uint, Digits, digits, format_uint-Digits}
use jotpot_server.Http.Ranges.Spec.{
  bounded, open_ended, suffix, IsRepresentable, IsRepresentable-IsReadBack,
}

-- The texts of the ranges with commas between them.
abbrev joined : Range → List Range → Bytes
joined r [] = (format_range r).0
joined r (q ∷ rs) = (format_range r).0 ++ comma ∷ joined q rs

format_more-joined :
    (out : Bytes) (r : Range) (rs : List Range)
    → All IsRepresentable rs
    → format_more (out ++ (format_range r).0) rs ≡ (out ++ joined r rs, none)
unfolding format_more
format_more-joined out r [] v = refl
format_more-joined out r (q ∷ rs) v =
    let b = IsRepresentable-IsReadBack q v.0 in
    let p : (format_range q).1 ≡ none = ap (λ x. x.1) b.formatted in
    let t = (format_range r).0 in
    let u = (format_range q).0 in
    rw (p, format_more)
      (ap (λ l. format_more l rs) (sym (append_assoc (out ++ t) (comma ∷ []) u))
        ∙ format_more-joined ((out ++ t) ++ comma ∷ []) q rs v.1
        ∙ ap (λ l. (l, none))
            (append_assoc (out ++ t) (comma ∷ []) (joined q rs)
              ∙ append_assoc out t (comma ∷ joined q rs)))

parse_specs-joined :
    (r : Range) (rs out : List Range) (fuel : ℕ)
    → All IsRepresentable (r ∷ rs)
    → length rs ≤ fuel
    → parse_specs (suc fuel) (joined r rs) out ≡ parsed (out ++ r ∷ rs) none
unfolding parse_specs
parse_specs-joined r [] out fuel v h =
    let b = IsRepresentable-IsReadBack r v.0 in
    rw (b.formatted, joined) (b.at_end out (parse_specs fuel))
parse_specs-joined r (q ∷ rs) out zero v h = absurd (omega (arith, h))
parse_specs-joined r (q ∷ rs) out (suc fuel) v h =
    let b = IsRepresentable-IsReadBack r v.0 in
    rw (b.formatted, joined)
      (b.at_comma (joined q rs) out (parse_specs (suc fuel))
        ∙ parse_specs-joined q rs (out ++ r ∷ []) fuel v.1 (omega (arith, h))
        ∙ ap (λ l. parsed l none) (append_assoc out (r ∷ []) (q ∷ rs)))

length-joined : (r : Range) (rs : List Range) → length rs ≤ length (joined r rs)
length-joined r [] = omega arith
length-joined r (q ∷ rs) =
    omega (arith, length-joined q rs, length-append (format_range r).0 (comma ∷ joined q rs))

format_ranges-joined :
    (r : Range) (rs : List Range)
    → All IsRepresentable (r ∷ rs)
    → format_ranges (r ∷ rs) ≡ (joined r rs, none)
unfolding format_ranges
format_ranges-joined r rs v =
    let b = IsRepresentable-IsReadBack r v.0 in
    let p : (format_range r).1 ≡ none = ap (λ x. x.1) b.formatted in
    rw (p, format_ranges) (format_more-joined [] r rs v.1)

parse_range_header-prefix :
    (v : Bytes) → parse_range_header (unit_prefix ++ v) ≡ parse_specs (suc (length v)) v []
unfolding parse_range_header
parse_range_header-prefix v =
    let long : ltb (length (unit_prefix ++ v)) 6 ≡ false = ground arith in rw long refl

-- Any list of ranges that the header can carry, with at least one, is written without an error, and
-- the header's value, which is this text behind "bytes=", is read back as the same list without an
-- error.
pub parse-format_ranges :
    (r : Range) (rs : List Range)
    → All IsRepresentable (r ∷ rs)
    → ((format_ranges (r ∷ rs)).1 ≡ none)
      × (parse_range_header (unit_prefix ++ (format_ranges (r ∷ rs)).0) ≡ parsed (r ∷ rs) none)
parse-format_ranges r rs v = rw (format_ranges-joined r rs v) (
  refl,
  parse_range_header-prefix (joined r rs)
      ∙ parse_specs-joined r rs [] (length (joined r rs)) v (length-joined r rs),
)

-- The text begins with a digit or a dash.
data StartsLow : Bytes → Type 0 where
  low : (c : ℕ) (s : Bytes) → c < 58 → StartsLow (c ∷ s)

StartsLow-append : (s t : Bytes) → StartsLow s → StartsLow (s ++ t)
StartsLow-append _ t (low c s h) = low c (s ++ t) h

Digits-StartsLow : (s : Bytes) → Digits s → StartsLow s
Digits-StartsLow _ (digits c cs d ds) = low c cs (omega (arith, d.below))

format_uint-StartsLow : (n : ℕ) → StartsLow (format_uint n)
format_uint-StartsLow n = Digits-StartsLow (format_uint n) (format_uint-Digits n)

format_range-StartsLow : (r : Range) → IsRepresentable r → StartsLow (format_range r).0
unfolding format_range
format_range-StartsLow r (bounded a b h k) = StartsLow-append _ _ (format_uint-StartsLow _)
format_range-StartsLow r (open_ended a h) = StartsLow-append _ _ (format_uint-StartsLow _)
format_range-StartsLow r (suffix n h) = low dash _ (omega arith)

joined-StartsLow :
    (r : Range) (rs : List Range) → All IsRepresentable (r ∷ rs) → StartsLow (joined r rs)
joined-StartsLow r [] v = format_range-StartsLow r v.0
joined-StartsLow r (q ∷ rs) v =
    StartsLow-append (format_range r).0 (comma ∷ joined q rs) (format_range-StartsLow r v.0)

parse_range_header-low :
    (v : Bytes)
    → StartsLow v
    → (parse_range_header v ≡ panic) ⊎ (parse_range_header v ≡ parsed [] none)
unfolding parse_range_header
parse_range_header-low _ (low c s h) =
    let other : (c == 98) ≡ false = ground (arith, h) in
    elim (Bool-cases (ltb (length (c ∷ s)) 6)) [
      | inl e ↦ rw e (inl refl)
      | inr e ↦ rw (e, other) (inr refl)
    ]

-- Without "bytes=" before it the text that FormatRanges writes makes ParseRangeHeader panic or ignore
-- it.
pub parse-format_ranges_bare :
    (r : Range) (rs : List Range)
    → All IsRepresentable (r ∷ rs)
    → (parse_range_header (format_ranges (r ∷ rs)).0 ≡ panic)
      ⊎ (parse_range_header (format_ranges (r ∷ rs)).0 ≡ parsed [] none)
parse-format_ranges_bare r rs v =
    rw (format_ranges-joined r rs v)
      (parse_range_header-low (joined r rs) (joined-StartsLow r rs v))

StartsLow-nonempty : (s : Bytes) → StartsLow s → equal s [] ≡ false
StartsLow-nonempty _ (low c s h) = refl

pub format_ranges-nonempty :
    (r : Range) (rs : List Range)
    → All IsRepresentable (r ∷ rs)
    → equal (format_ranges (r ∷ rs)).0 [] ≡ false
format_ranges-nonempty r rs v =
    rw (format_ranges-joined r rs v) (StartsLow-nonempty (joined r rs) (joined-StartsLow r rs v))
