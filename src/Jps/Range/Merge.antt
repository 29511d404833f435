-- ===== src/Jps/Range/Merge.antt =====
-- `MergeRanges` of jps/range.go. The loop's state is r1 = rs[i-1] and the rest rs[i:]; what lies
-- before r1 is final, so it is the head of the result.
use jotpot_server.Base.{
  ℕ, ◌≡◌, refl, ◌∙◌, ap, arith, Bool, true, false, ◌&&◌, ◌||◌, List, [], ◌∷◌, Option, none, some,
  if◌then◌else◌, All, Bool-cases, inl, inr, ◌≤◌, ◌<◌, ◌^◌, Option-cases,
}
use jotpot_server.Base.Int.{
  wrap_difference, -ℤ_parts, pos, negsuc, is_negative, ltb_ℤ, leb_ℤ, ◌≤ℤ◌, pos_part,
}
use jotpot_server.Jps.Range.{Range, is_no_length}

-- One round of the loop, with both of r2's indices absolute: `some r` when r2 is removed and r is
-- rs[i-1] from now on, `none` when r2 stays and is the next r1.
unfoldable pub merge_absolute : Range → Range → Option Range
merge_absolute r1 r2 =
    if ltb_ℤ r2.end r2.start
    then some r1
    else if is_negative r1.start
    then none
    else if leb_ℤ r1.start r2.start
    then (if leb_ℤ r2.start r1.end
        then some (if ltb_ℤ r1.end r2.end then record r1 { end = r2.end } else r1)
        else none)
    else if leb_ℤ r1.start r2.end
    then some (record { start = r2.start; end = if ltb_ℤ r1.end r2.end then r2.end else r1.end })
    else none

unfoldable pub merge_step : Range → Range → Option Range
unfolding merge_absolute
merge_step r1 r2 =
    if is_negative r2.start then none else if is_negative r2.end then none else merge_absolute r1 r2

unfoldable pub merge_loop : Range → List Range → List Range
merge_loop r1 [] = r1 ∷ []
merge_loop r1 (r2 ∷ rest) = elim (merge_step r1 r2) [
  | some r ↦ merge_loop r rest
  | none ↦ r1 ∷ merge_loop r2 rest
]

unfoldable pub merge_ranges : List Range → List Range
unfolding merge_loop merge_step
merge_ranges [] = []
merge_ranges (r1 ∷ rest) = elim (is_no_length r1) [
  | true ↦ merge_ranges rest
  | false ↦ merge_loop r1 rest
]

-- The byte at offset b lies in the range; no byte lies in a range with an index from the end.
abbrev pub holds : Range → ℕ → Bool
holds r b = leb_ℤ r.start (pos b) && leb_ℤ (pos b) r.end

-- Some range of the list holds the byte.
abbrev pub covers : List Range → ℕ → Bool
covers [] b = false
covers (r ∷ rs) b = holds r b || covers rs b

-- Neither index is relative to the end, and both are int64.
pub record IsAbsoluteRange (r : Range) : Type 0 where
  pub start : is_negative r.start ≡ false
  pub end : is_negative r.end ≡ false
  pub start_fits : pos_part r.start < 2 ^ 63
  pub end_fits : pos_part r.end < 2 ^ 63

is_no_length-holds :
    (r : Range) (b : ℕ) → IsAbsoluteRange r → is_no_length r ≡ true → holds r b ≡ false
unfolding is_no_length
is_no_length-holds r b h e = ground (arith, wrap_difference r.end r.start, -ℤ_parts r.end r.start)

pub is_no_length-nonempty :
    (r : Range) → IsAbsoluteRange r → is_no_length r ≡ false → r.start ≤ℤ r.end
unfolding is_no_length
is_no_length-nonempty r h e = ground (arith, wrap_difference r.end r.start, -ℤ_parts r.end r.start)

merge_step-holds :
    (b : ℕ) (r1 r2 r : Range)
    → IsAbsoluteRange r1
    → IsAbsoluteRange r2
    → merge_step r1 r2 ≡ some r
    → holds r b ≡ (holds r1 b || holds r2 b)
unfolding merge_step
merge_step-holds b r1 r2 r h k e = ground arith

pub merge_step-IsAbsoluteRange :
    (r1 r2 r : Range)
    → IsAbsoluteRange r1
    → IsAbsoluteRange r2
    → merge_step r1 r2 ≡ some r
    → IsAbsoluteRange r
unfolding merge_step
merge_step-IsAbsoluteRange r1 r2 r h k e = ground arith

or_regroup : (a b c : Bool) → ((a || b) || c) ≡ (a || (b || c))
or_regroup a b c = ground arith

merge_loop-covers :
    (b : ℕ) (r1 : Range) (rest : List Range)
    → IsAbsoluteRange r1
    → All IsAbsoluteRange rest
    → covers (merge_loop r1 rest) b ≡ covers (r1 ∷ rest) b
unfolding merge_loop
merge_loop-covers b r1 [] h k = refl
merge_loop-covers b r1 (r2 ∷ rest) h k = elim (Option-cases (merge_step r1 r2)) [
  | inl e ↦ rw (e, merge_loop) (ap (◌||◌ (holds r1 b)) (merge_loop-covers b r2 rest k.0 k.1))
  | inr (r, e) ↦
      rw (e, merge_loop)
        (merge_loop-covers b r rest (merge_step-IsAbsoluteRange r1 r2 r h k.0 e) k.1
          ∙ rw (merge_step-holds b r1 r2 r h k.0 e)
              (or_regroup (holds r1 b) (holds r2 b) (covers rest b)))
]

-- Merging absolute ranges, in any order, keeps exactly the bytes that some range holds.
pub merge_ranges-covers :
    (rs : List Range) (b : ℕ) → All IsAbsoluteRange rs → covers (merge_ranges rs) b ≡ covers rs b
unfolding merge_ranges
merge_ranges-covers [] b h = refl
merge_ranges-covers (r1 ∷ rest) b h = elim (Bool-cases (is_no_length r1)) [
  | inl e ↦
      rw (e, merge_ranges) (merge_ranges-covers rest b h.1 ∙ rw (is_no_length-holds r1 b h.0 e))
  | inr e ↦ rw (e, merge_ranges) (merge_loop-covers b r1 rest h.0 h.1)
]

-- A range that starts at byte s and is open at the end, followed by an absolute one that starts
-- earlier and reaches s, is merged to the latter alone: the bytes behind its end are lost.
pub merge_ranges_open_end :
    (a s e : ℕ)
    → a < s
    → s ≤ e
    → merge_ranges
        (record { start = pos s; end = negsuc 0 } ∷ record { start = pos a; end = pos e } ∷ [])
      ≡ record { start = pos a; end = pos e } ∷ []
unfolding merge_ranges is_no_length
merge_ranges_open_end a s e h k = ground arith
