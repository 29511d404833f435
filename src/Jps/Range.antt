-- ===== src/Jps/Range.antt =====
-- Byte ranges (jps/range.go): the arithmetic of one range. Sorting and merging are in Range/Sort
-- and Range/Merge. int64 arithmetic is that of ℤ followed by `wrap_int64`.
pub mod Lengths
pub mod Sort
pub mod Merge
pub mod Tidy
use jotpot_server.Base.{Bool, false, not, ◌&&◌, if◌then◌else◌}
use jotpot_server.Base.Int.{ℤ, pos, negsuc, is_negative, is_positive, ◌+ℤ◌, ◌-ℤ◌, ◌*ℤ◌, wrap_int64}

-- First and last byte, both inclusive; a negative index counts from the end, -1 the last byte.
pub record Range : Type 0 where
  pub start : ℤ
  pub end : ℤ

unfoldable pub range_all : Range
range_all = record { start = pos 0; end = negsuc 0 }

unfoldable pub new_range : ℤ → ℤ → Range
new_range start end = record { start = start; end = end }

-- One bound of `Range.Abs`: the size is added to a negative index.
abbrev pub absolute_index : ℤ → ℤ → ℤ
absolute_index size i = if is_negative i then wrap_int64 (i +ℤ size) else i

unfoldable pub abs : Range → ℤ → Range
abs r size = record { start = absolute_index size r.start; end = absolute_index size r.end }

unfoldable pub start_end : Range → ℤ → ℤ × ℤ
unfolding abs
start_end r size = ((abs r size).start, (abs r size).end)

unfoldable pub is_absolute : Range → Bool
is_absolute r = not (is_negative r.start) && not (is_negative r.end)

-- The factor of the size in `Range.Length`.
unfoldable pub size_mul : Range → ℤ
size_mul r =
    if is_negative r.start
    then (if is_positive r.end then negsuc 0 else pos 0)
    else if is_negative r.end
    then pos 1
    else pos 0

unfoldable pub range_length : Range → ℤ × ℤ
unfolding size_mul
range_length r = (wrap_int64 (wrap_int64 (r.end -ℤ r.start) +ℤ pos 1), size_mul r)

unfoldable pub abs_length : Range → ℤ → ℤ
unfolding range_length
abs_length r size = let (l, mul) = range_length r in wrap_int64 (l +ℤ wrap_int64 (mul *ℤ size))

unfoldable pub is_no_length : Range → Bool
is_no_length r =
    if is_negative r.start && is_positive r.end
    then false
    else if is_negative r.end
    then false
    else is_negative (wrap_int64 (r.end -ℤ r.start))
