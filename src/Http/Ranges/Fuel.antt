-- ===== src/Http/Ranges/Fuel.antt =====
-- The fuel that `parse_range_header` starts with is enough for every value.
use mathlib.Core.Path.{subst}
use jotpot_server.Base.{
  ℕ, zero, suc, ◌≤◌, ◌<◌, ◌≡◌, refl, inl, inr, true, false, Option, none, some, List, [], ◌∷◌,
  Bytes, length, arith, ltb, equal, take, drop, Bool-cases, Option-cases, ◌==◌,
}
use jotpot_server.Base.Int.{ℤ, pos, negsuc}
use jotpot_server.Base.Decimal.{parse_uint}
use jotpot_server.Jps.Range.{Range}
use jotpot_server.Http.Ranges.{
  comma, dash, ParsedRanges, parsed, panic, out_of_fuel, cut, unit_prefix, with_number, with_end,
  parse_suffix, parse_end, parse_spec, parse_specs, parse_range_header, number_error,
}

-- Neither a panic nor the end of the fuel.
abbrev pub Returns : ParsedRanges → Type 0
Returns (parsed ranges err) = Unit
Returns panic = ⊥
Returns out_of_fuel = ⊥

-- What `cut` leaves behind the byte is shorter.
abbrev Shorter : Bytes → Option (Bytes × Bytes) → Type 0
Shorter v none = Unit
Shorter v (some parts) = length parts.1 < length v

Shorter-cons :
    (c : ℕ) (v : Bytes) (o : Option (Bytes × Bytes))
    → Shorter v o
    → Shorter (c ∷ v) (elim o [ none ↦ none | some parts ↦ some (c ∷ parts.0, parts.1) ])
Shorter-cons c v none h = tt
Shorter-cons c v (some parts) h = omega (arith, h)

cut-Shorter : (b : ℕ) (v : Bytes) → Shorter v (cut b v)
unfolding cut
cut-Shorter b [] = tt
cut-Shorter b (c ∷ v) = elim (Bool-cases (c == b)) [
  | inl e ↦ rw e (omega arith)
  | inr e ↦ rw e (Shorter-cons c v (cut b v) (cut-Shorter b v))
]

cut-some :
    (b : ℕ) (v : Bytes) (parts : Bytes × Bytes) → cut b v ≡ some parts → length parts.1 < length v
cut-some b v parts e = subst (Shorter v) e (cut-Shorter b v)

with_number-Returns :
    (v : Bytes) (out : List Range) (next : ℕ → ParsedRanges)
    → ((n : ℕ) → Returns (next n))
    → Returns (with_number v out next)
unfolding with_number
with_number-Returns v out next h =
    elim (parse_uint 63 v)
      as (λ r. Returns (elim r [ inl n ↦ next n | inr e ↦ parsed out (some (number_error e)) ])) [
        | inl n ↦ h n
        | inr e ↦ tt
      ]

with_end-Returns :
    (v : Bytes) (out : List Range) (next : ℤ → ParsedRanges)
    → ((e : ℤ) → Returns (next e))
    → Returns (with_end v out next)
unfolding with_end
with_end-Returns [] out next h = h (negsuc 0)
with_end-Returns (c ∷ v) out next h =
    with_number-Returns (c ∷ v) out (λ n. next (pos n)) (λ n. h (pos n))

-- The continuation ends on every value shorter than `v`.
abbrev Ends : Bytes → (Bytes → List Range → ParsedRanges) → Type 0
Ends v next = (w : Bytes) (out : List Range) → length w < length v → Returns (next w out)

parse_suffix-Returns :
    (v : Bytes) (out : List Range) (next : Bytes → List Range → ParsedRanges)
    → Ends v next
    → Returns (parse_suffix v out next)
unfolding parse_suffix
parse_suffix-Returns v out next h = elim (Option-cases (cut comma v)) [
  | inl e ↦ rw (e, parse_suffix) (with_number-Returns v out _ (λ n. tt))
  | inr (p, e) ↦
      rw (e, parse_suffix) (with_number-Returns p.0 out _ (λ n. h p.1 _ (cut-some comma v p e)))
]

parse_end-Returns :
    (start : ℕ) (v : Bytes) (out : List Range) (next : Bytes → List Range → ParsedRanges)
    → Ends v next
    → Returns (parse_end start v out next)
unfolding parse_end
parse_end-Returns start v out next h = elim (Option-cases (cut comma v)) [
  | inl e ↦ rw (e, parse_end) (with_end-Returns v out _ (λ n. tt))
  | inr (p, e) ↦
      rw (e, parse_end) (with_end-Returns p.0 out _ (λ n. h p.1 _ (cut-some comma v p e)))
]

parse_spec-Returns :
    (v : Bytes) (out : List Range) (next : Bytes → List Range → ParsedRanges)
    → Ends v next
    → Returns (parse_spec v out next)
unfolding parse_spec
parse_spec-Returns v out next h = elim (Option-cases (cut dash v)) [
  | inl e ↦ rw (e, parse_spec) tt
  | inr (([], rest), e) ↦
      rw (e, parse_spec)
        (parse_suffix-Returns rest out next
          (λ w o l. h w o (omega (arith, l, cut-some dash v ([], rest) e))))
  | inr ((c ∷ first, rest), e) ↦
      rw (e, parse_spec)
        (with_number-Returns (c ∷ first) out _ (λ n.
          parse_end-Returns n rest out next
            (λ w o l. h w o (omega (arith, l, cut-some dash v (c ∷ first, rest) e)))))
]

parse_specs-Returns :
    (fuel : ℕ) (v : Bytes) (out : List Range) → length v < fuel → Returns (parse_specs fuel v out)
unfolding parse_specs
parse_specs-Returns zero v out h = absurd (omega (arith, h))
parse_specs-Returns (suc fuel) v out h =
    parse_spec-Returns v out (parse_specs fuel)
      (λ w o l. parse_specs-Returns fuel w o (omega (arith, h, l)))

-- ParseRangeHeader panics on a value of fewer than six bytes, and returns for every other: its loop ends
-- within as many rounds as the value has bytes behind the sixth.
pub parse_range_header-Returns :
    (v : Bytes)
    → (length v < 6 → parse_range_header v ≡ panic)
      × (6 ≤ length v → Returns (parse_range_header v))
unfolding parse_range_header
parse_range_header-Returns v = (
  λ h. let short : ltb (length v) 6 ≡ true = ground (arith, h) in rw short refl,
  λ h.
      let long : ltb (length v) 6 ≡ false = ground (arith, h) in
      rw long (elim (Bool-cases (equal (take 6 v) unit_prefix)) [
        | inl e ↦ rw e (parse_specs-Returns (suc (length (drop 6 v))) (drop 6 v) [] (omega arith))
        | inr e ↦ rw e tt
      ]),
)
