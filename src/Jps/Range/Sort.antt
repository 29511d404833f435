-- ===== src/Jps/Range/Sort.antt =====
-- `SortRanges` of jps/range.go: the in-place insertion sort by the start value. An index that moves
-- down through a prefix of the slice is that prefix, reversed.
use mathlib.Core.List.{
  reverse, append_assoc, append-nil, reverse-cons, reverse_perm, perm_middle, Perm,
}
use mathlib.Core.List.Perm
use jotpot_server.Base.{
  ◌≡◌, refl, ◌∙◌, sym, arith, List, [], ◌∷◌, ◌++◌, if◌then◌else◌, All, Bool-cases, inl, inr,
}
use jotpot_server.Base.Int.{ℤ, ltb_ℤ, eq_ℤ, ◌≤ℤ◌}
use jotpot_server.Jps.Range.{Range}

-- The inner loop: the list is rs[j], rs[j-1], …, rs[0], and `r` stands at index j+1. It moves down
-- while it starts before its neighbour.
unfoldable pub sink : Range → List Range → List Range
sink r [] = r ∷ []
sink r (p ∷ before) = if ltb_ℤ r.start p.start then p ∷ sink r before else r ∷ p ∷ before

-- The outer loop: `before` is rs[i-1], …, rs[0] and the list is rs[i], rs[i+1], ….
unfoldable pub sort_loop : List Range → List Range → List Range
sort_loop before [] = reverse before
sort_loop before (r ∷ rest) = sort_loop (sink r before) rest

unfoldable pub sort_ranges : List Range → List Range
unfolding sort_loop sink
sort_ranges rs = sort_loop [] rs

-- Ascending start values.
abbrev pub IsSorted : List Range → Type 0
IsSorted [] = Unit
IsSorted (r ∷ rs) = All (λ s. r.start ≤ℤ s.start) rs × IsSorted rs

-- Descending start values: the order of the part that is done, from its end.
abbrev IsDescending : List Range → Type 0
IsDescending [] = Unit
IsDescending (r ∷ rs) = All (λ s. s.start ≤ℤ r.start) rs × IsDescending rs

pub All-sink : (P : Range → Type 0) (r : Range) (l : List Range) → P r → All P l → All P (sink r l)
unfolding sink
All-sink P r [] h k = (h, tt)
All-sink P r (p ∷ l) h k = elim (Bool-cases (ltb_ℤ r.start p.start)) [
  | inl e ↦ rw e (k.0, All-sink P r l h k.1)
  | inr e ↦ rw e (h, k)
]

All-weaken :
    (a b : ℤ) (l : List Range) → a ≤ℤ b → All (λ s. s.start ≤ℤ a) l → All (λ s. s.start ≤ℤ b) l
All-weaken a b [] h k = tt
All-weaken a b (p ∷ l) h k = (omega arith, All-weaken a b l h k.1)

sink-IsDescending : (r : Range) (l : List Range) → IsDescending l → IsDescending (sink r l)
unfolding sink
sink-IsDescending r [] d = (tt, tt)
sink-IsDescending r (p ∷ l) d = elim (Bool-cases (ltb_ℤ r.start p.start)) [
  | inl e ↦
      rw e (All-sink (λ s. s.start ≤ℤ p.start) r l (ground arith) d.0, sink-IsDescending r l d.1)
  | inr e ↦ rw e ((ground arith, All-weaken p.start r.start l (ground arith) d.0), d)
]

All-concat : (P : Range → Type 0) (l : List Range) (r : Range) → All P l → P r → All P (l ++ r ∷ [])
All-concat P [] r h k = (k, tt)
All-concat P (p ∷ l) r h k = (h.0, All-concat P l r h.1 k)

pub All-reverse : (P : Range → Type 0) (l : List Range) → All P l → All P (reverse l)
All-reverse P [] h = tt
All-reverse P (p ∷ l) h = rw (reverse-cons p l) (All-concat P _ p (All-reverse P l h.1) h.0)

IsSorted-concat :
    (l : List Range) (r : Range)
    → IsSorted l
    → All (λ s. s.start ≤ℤ r.start) l
    → IsSorted (l ++ r ∷ [])
IsSorted-concat [] r s h = (tt, tt)
IsSorted-concat (p ∷ l) r s h =
    (All-concat (λ t. p.start ≤ℤ t.start) l r s.0 h.0, IsSorted-concat l r s.1 h.1)

reverse-IsSorted : (l : List Range) → IsDescending l → IsSorted (reverse l)
reverse-IsSorted [] d = tt
reverse-IsSorted (p ∷ l) d =
    rw (reverse-cons p l)
      (IsSorted-concat _ p (reverse-IsSorted l d.1) (All-reverse (λ s. s.start ≤ℤ p.start) l d.0))

sort_loop-IsSorted :
    (before rest : List Range) → IsDescending before → IsSorted (sort_loop before rest)
unfolding sort_loop
sort_loop-IsSorted before [] d = reverse-IsSorted before d
sort_loop-IsSorted before (r ∷ rest) d =
    sort_loop-IsSorted (sink r before) rest (sink-IsDescending r before d)

pub sort_ranges-IsSorted : (rs : List Range) → IsSorted (sort_ranges rs)
unfolding sort_ranges
sort_ranges-IsSorted rs = sort_loop-IsSorted [] rs tt

sink-perm : (r : Range) (l : List Range) → Perm (sink r l) (r ∷ l)
unfolding sink
sink-perm r [] = Perm.rfl
sink-perm r (p ∷ l) = elim (Bool-cases (ltb_ℤ r.start p.start)) [
  | inl e ↦ rw e (Perm.trans (Perm.cons p (sink-perm r l)) (Perm.swap r p l))
  | inr e ↦ rw e Perm.rfl
]

sort_loop-perm : (before rest : List Range) → Perm (sort_loop before rest) (before ++ rest)
unfolding sort_loop
sort_loop-perm before [] = rw (append-nil before) (reverse_perm before)
sort_loop-perm before (r ∷ rest) =
    Perm.trans (sort_loop-perm (sink r before) rest) (
      Perm.trans (Perm.append_right rest (sink-perm r before))
        (Perm.symm (perm_middle before rest)))

pub sort_ranges-perm : (rs : List Range) → Perm (sort_ranges rs) rs
unfolding sort_ranges
sort_ranges-perm rs = sort_loop-perm [] rs

-- The ranges that start at `k`, in their order.
abbrev pub starting_at : ℤ → List Range → List Range
starting_at k [] = []
starting_at k (r ∷ rs) = if eq_ℤ r.start k then r ∷ starting_at k rs else starting_at k rs

starting_at-append :
    (k : ℤ) (l m : List Range) → starting_at k (l ++ m) ≡ starting_at k l ++ starting_at k m
starting_at-append k [] m = refl
starting_at-append k (r ∷ l) m = ground (arith, starting_at-append k l m)

starting_at-reverse :
    (k : ℤ) (l : List Range) → starting_at k (reverse l) ≡ reverse (starting_at k l)
starting_at-reverse k [] = refl
starting_at-reverse k (r ∷ l) = rw (reverse-cons r l) (
    starting_at-append k (reverse l) (r ∷ [])
    ∙ ground (
      arith,
      starting_at-reverse k l,
      append-nil (reverse (starting_at k l)),
      reverse-cons r (starting_at k l),
    ))

-- `r` passes only ranges that start elsewhere.
starting_at-sink :
    (k : ℤ) (r : Range) (l : List Range) → starting_at k (sink r l) ≡ starting_at k (r ∷ l)
unfolding sink
starting_at-sink k r [] = refl
starting_at-sink k r (p ∷ l) = ground (arith, starting_at-sink k r l)

starting_at-sort_loop :
    (k : ℤ) (before rest : List Range)
    → starting_at k (sort_loop before rest) ≡ reverse (starting_at k before) ++ starting_at k rest
unfolding sort_loop
starting_at-sort_loop k before [] =
    starting_at-reverse k before ∙ sym (append-nil (reverse (starting_at k before)))
starting_at-sort_loop k before (r ∷ rest) =
    starting_at-sort_loop k (sink r before) rest
    ∙ rw (starting_at-sink k r before) (
        ground (
          arith,
          reverse-cons r (starting_at k before),
          append_assoc (reverse (starting_at k before)) (r ∷ []) (starting_at k rest),
        ))

pub starting_at-sort_ranges :
    (k : ℤ) (rs : List Range) → starting_at k (sort_ranges rs) ≡ starting_at k rs
unfolding sort_ranges
starting_at-sort_ranges k rs = starting_at-sort_loop k [] rs

-- `SortRanges` returns the same ranges in ascending order of their start values, and ranges with
-- one start value keep their order.
pub sort_ranges_correct :
    (rs : List Range)
    → IsSorted (sort_ranges rs)
      × Perm (sort_ranges rs) rs
      × ((k : ℤ) → starting_at k (sort_ranges rs) ≡ starting_at k rs)
sort_ranges_correct rs =
    (sort_ranges-IsSorted rs, sort_ranges-perm rs, λ k. starting_at-sort_ranges k rs)
