-- ===== src/Jps/Range/Tidy.antt =====
-- `TidyRanges` of jps/range.go: sort, then merge.
use mathlib.Core.List.{reverse, reverse-cons}
use jotpot_server.Base.{
  ℕ, ◌≡◌, refl, ◌∙◌, arith, ◌||◌, List, [], ◌∷◌, ◌++◌, some, none, All, Bool-cases, Option-cases,
  inl, inr,
}
use jotpot_server.Base.Int.{ℤ, ◌≤ℤ◌, ◌<ℤ◌}
use jotpot_server.Jps.Range.{Range, is_no_length}
use jotpot_server.Jps.Range.Sort.{
  sink, sort_loop, sort_ranges, IsSorted, sort_ranges-IsSorted, All-sink, All-reverse,
}
use jotpot_server.Jps.Range.Merge.{
  merge_step, merge_loop, merge_ranges, merge_ranges-covers, IsAbsoluteRange, covers,
  is_no_length-nonempty, merge_step-IsAbsoluteRange,
}

unfoldable pub tidy_ranges : List Range → List Range
tidy_ranges rs = merge_ranges (sort_ranges rs)

covers-append : (b : ℕ) (l m : List Range) → covers (l ++ m) b ≡ (covers l b || covers m b)
covers-append b [] m = refl
covers-append b (r ∷ l) m = ground (arith, covers-append b l m)

covers-reverse : (b : ℕ) (l : List Range) → covers (reverse l) b ≡ covers l b
covers-reverse b [] = refl
covers-reverse b (r ∷ l) =
    rw (reverse-cons r l)
      (covers-append b (reverse l) (r ∷ []) ∙ ground (arith, covers-reverse b l))

covers-sink : (b : ℕ) (r : Range) (l : List Range) → covers (sink r l) b ≡ covers (r ∷ l) b
unfolding sink
covers-sink b r [] = refl
covers-sink b r (p ∷ l) = ground (arith, covers-sink b r l)

covers-sort_loop :
    (b : ℕ) (before rest : List Range)
    → covers (sort_loop before rest) b ≡ (covers before b || covers rest b)
unfolding sort_loop
covers-sort_loop b before [] = ground (arith, covers-reverse b before)
covers-sort_loop b before (r ∷ rest) =
    covers-sort_loop b (sink r before) rest ∙ ground (arith, covers-sink b r before)

All-sort_loop :
    (P : Range → Type 0) (before rest : List Range)
    → All P before
    → All P rest
    → All P (sort_loop before rest)
unfolding sort_loop
All-sort_loop P before [] h k = All-reverse P before h
All-sort_loop P before (r ∷ rest) h k =
    All-sort_loop P (sink r before) rest (All-sink P r before k.0 h) k.1

-- Every range is non-empty and ends before every later one starts.
abbrev pub IsSeparated : List Range → Type 0
IsSeparated [] = Unit
IsSeparated (r ∷ rs) = (r.start ≤ℤ r.end) × All (λ s. r.end <ℤ s.start) rs × IsSeparated rs

-- A merge of sorted neighbours keeps the first start.
merge_step-start :
    (r1 r2 r : Range)
    → IsAbsoluteRange r1
    → IsAbsoluteRange r2
    → r1.start ≤ℤ r2.start
    → r1.start ≤ℤ r1.end
    → merge_step r1 r2 ≡ some r
    → (r1.start ≤ℤ r.start) × (r.start ≤ℤ r1.start) × (r.start ≤ℤ r.end)
unfolding merge_step
merge_step-start r1 r2 r h k le ne e = ground arith

merge_step-apart :
    (r1 r2 : Range)
    → IsAbsoluteRange r1
    → IsAbsoluteRange r2
    → r1.start ≤ℤ r2.start
    → merge_step r1 r2 ≡ none
    → (r1.end <ℤ r2.start) × (r2.start ≤ℤ r2.end)
unfolding merge_step
merge_step-apart r1 r2 h k le e = ground arith

All-from :
    (a b : ℤ) (l : List Range) → a ≤ℤ b → All (λ s. b ≤ℤ s.start) l → All (λ s. a ≤ℤ s.start) l
All-from a b [] h k = tt
All-from a b (p ∷ l) h k = (omega arith, All-from a b l h k.1)

All-after :
    (a b : ℤ) (l : List Range) → a <ℤ b → All (λ s. b ≤ℤ s.start) l → All (λ s. a <ℤ s.start) l
All-after a b [] h k = tt
All-after a b (p ∷ l) h k = (omega arith, All-after a b l h k.1)

-- The merged ranges start no earlier than the sorted ones.
merge_loop-from :
    (a : ℤ) (r1 : Range) (rest : List Range)
    → IsAbsoluteRange r1
    → All IsAbsoluteRange rest
    → a ≤ℤ r1.start
    → All (λ s. a ≤ℤ s.start) rest
    → All (λ s. a ≤ℤ s.start) (merge_loop r1 rest)
unfolding merge_loop
merge_loop-from a r1 [] h k le l = (le, tt)
merge_loop-from a r1 (r2 ∷ rest) h k le l = elim (Option-cases (merge_step r1 r2)) [
  | inl e ↦ rw (e, merge_loop) (le, merge_loop-from a r2 rest k.0 k.1 l.0 l.1)
  | inr (r, e) ↦
      rw (e, merge_loop)
        (merge_loop-from a r rest (merge_step-IsAbsoluteRange r1 r2 r h k.0 e) k.1
          (unfold merge_step in ground arith) l.1)
]

merge_loop-IsSeparated :
    (r1 : Range) (rest : List Range)
    → IsAbsoluteRange r1
    → All IsAbsoluteRange rest
    → IsSorted (r1 ∷ rest)
    → r1.start ≤ℤ r1.end
    → IsSeparated (merge_loop r1 rest)
unfolding merge_loop
merge_loop-IsSeparated r1 [] h k s ne = (ne, tt, tt)
merge_loop-IsSeparated r1 (r2 ∷ rest) h k s ne = elim (Option-cases (merge_step r1 r2)) [
  | inl e ↦
      let (apart, ne2) = merge_step-apart r1 r2 h k.0 s.0.0 e in
      rw (e, merge_loop)
        (
          ne,
          All-after r1.end r2.start (merge_loop r2 rest) apart
              (merge_loop-from r2.start r2 rest k.0 k.1 (omega arith) s.1.0),
          merge_loop-IsSeparated r2 rest k.0 k.1 s.1 ne2,
        )
  | inr (r, e) ↦
      let (_, below, ne') = merge_step-start r1 r2 r h k.0 s.0.0 ne e in
      rw (e, merge_loop)
        (merge_loop-IsSeparated r rest (merge_step-IsAbsoluteRange r1 r2 r h k.0 e) k.1
          (All-from r.start r1.start rest below s.0.1, s.1.1) ne')
]

merge_ranges-IsSeparated :
    (rs : List Range) → All IsAbsoluteRange rs → IsSorted rs → IsSeparated (merge_ranges rs)
unfolding merge_ranges
merge_ranges-IsSeparated [] h s = tt
merge_ranges-IsSeparated (r1 ∷ rest) h s = elim (Bool-cases (is_no_length r1)) [
  | inl e ↦ rw (e, merge_ranges) (merge_ranges-IsSeparated rest h.1 s.1)
  | inr e ↦
      rw (e, merge_ranges)
        (merge_loop-IsSeparated r1 rest h.0 h.1 s (is_no_length-nonempty r1 h.0 e))
]

-- For ranges with no index from the end, `TidyRanges` returns non-empty ranges, each ending before
-- every later one starts, that hold exactly the bytes of the given ones.
pub tidy_ranges_correct :
    (rs : List Range)
    → All IsAbsoluteRange rs
    → IsSeparated (tidy_ranges rs) × ((b : ℕ) → covers (tidy_ranges rs) b ≡ covers rs b)
unfolding tidy_ranges sort_ranges
tidy_ranges_correct rs h =
    let sorted = All-sort_loop IsAbsoluteRange [] rs tt h in
    (
      merge_ranges-IsSeparated (sort_ranges rs) sorted (sort_ranges-IsSorted rs),
      λ b. merge_ranges-covers (sort_ranges rs) b sorted ∙ covers-sort_loop b [] rs,
    )
