-- ===== src/Examples/Jps.antt =====
-- Runs and theorems of jps at concrete inputs.
use mathlib.Core.List.{Perm}
use jotpot_server.Base.{ℕ, ◌<◌, ◌≡◌, inl, refl, arith, List, [], ◌∷◌, All}
use jotpot_server.Base.Int.{ℤ, pos, negsuc, ◌+ℤ◌, ◌-ℤ◌, ◌*ℤ◌, wrap_int64}
use jotpot_server.Jps.Range.{Range, abs, abs_length, is_no_length, range_length, size_mul}
use jotpot_server.Jps.Range.Lengths.{abs_length-abs}
use jotpot_server.Jps.Range.Sort.{sort_ranges, IsSorted, starting_at, sort_ranges_correct}
use jotpot_server.Jps.Range.Merge.{merge_ranges, covers, IsAbsoluteRange}
use jotpot_server.Jps.Range.Tidy.{tidy_ranges, IsSeparated, tidy_ranges_correct}

abbrev span : ℕ → ℕ → Range
span s e = record { start = pos s; end = pos e }

abbrev spans : List Range
spans = span 5 9 ∷ span 0 2 ∷ span 8 12 ∷ span 20 10 ∷ []

tidy_ranges-spans : tidy_ranges spans ≡ span 0 2 ∷ span 5 12 ∷ []
unfolding tidy_ranges sort_ranges merge_ranges is_no_length wrap_int64 ◌-ℤ◌
tidy_ranges-spans = refl

-- The last five bytes of a file of a hundred.
abbrev last_five : Range
last_five = record { start = negsuc 4; end = negsuc 0 }

abs_length-last_five : abs_length last_five (pos 100) ≡ pos 5
unfolding abs_length range_length size_mul wrap_int64 ◌+ℤ◌ ◌-ℤ◌ ◌*ℤ◌
abs_length-last_five = refl

abs_length-abs_example :
    abs_length last_five (pos 100)
    ≡ (abs last_five (pos 100)).end -ℤ (abs last_five (pos 100)).start +ℤ pos 1
abs_length-abs_example = abs_length-abs last_five 100 (omega arith) (omega arith) (inl (λ e. cc))

sort_ranges_correct_example :
    IsSorted (sort_ranges spans)
    × Perm (sort_ranges spans) spans
    × ((k : ℤ) → starting_at k (sort_ranges spans) ≡ starting_at k spans)
sort_ranges_correct_example = sort_ranges_correct spans

span-IsAbsoluteRange : (s e : ℕ) → s < 100 → e < 100 → IsAbsoluteRange (span s e)
span-IsAbsoluteRange s e h k = record {
  start = refl;
  end = refl;
  start_fits = omega arith;
  end_fits = omega arith;
}

spans-All : All IsAbsoluteRange spans
spans-All =
    let a = span-IsAbsoluteRange 5 9 (omega arith) (omega arith) in
    let b = span-IsAbsoluteRange 0 2 (omega arith) (omega arith) in
    let c = span-IsAbsoluteRange 8 12 (omega arith) (omega arith) in
    let d = span-IsAbsoluteRange 20 10 (omega arith) (omega arith) in (a, (b, (c, (d, tt))))

tidy_ranges_correct_example :
    IsSeparated (tidy_ranges spans) × ((b : ℕ) → covers (tidy_ranges spans) b ≡ covers spans b)
tidy_ranges_correct_example = tidy_ranges_correct spans spans-All
