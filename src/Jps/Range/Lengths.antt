-- ===== src/Jps/Range/Lengths.antt =====
-- `Abs`, `StartEnd`, `IsAbsolute`, `Length` and `AbsLength` of jps/range.go against one another.
use jotpot_server.Base.{
  ℕ, zero, suc, ◌+◌, ◌<◌, ◌^◌, ◌≡◌, ◌↔◌, ◌≤◌, ◌≢◌, ◌⊎◌, inl, inr, refl, ◌∙◌, arith, true, false,
}
use jotpot_server.Base.Int.{
  is_negative, ℤ, pos, negsuc, pos_part, neg_part, ◌+ℤ◌, ◌-ℤ◌, ◌*ℤ◌, ◌≤ℤ◌, wrap_int64, wrap_sum,
  wrap_difference, +ℤ_parts, -ℤ_parts, int_laws, parts_canonical,
}
use jotpot_server.Jps.Range.{Range, abs, is_absolute, abs_length, range_length, size_mul}

-- The magnitude is below 2^61, so that sums of a few such numbers are exact in int64.
pub record IsModest (z : ℤ) : Type 0 where
  pub above : pos_part z < 2 ^ 61
  pub below : neg_part z < 2 ^ 61

-- The range's bounds are such numbers.
pub record IsModestRange (r : Range) : Type 0 where
  pub start : IsModest r.start
  pub end : IsModest r.end

abbrev exact_index : ℕ → ℤ → ℤ
exact_index n (pos i) = pos i
exact_index n (negsuc i) = negsuc i +ℤ pos n

module _ (n : ℕ) (small : n < 2 ^ 61) where
  -- `Abs` with exact arithmetic.
  abs_exact :
      (s e : ℤ)
      → IsModest s
      → IsModest e
      → abs (record { start = s; end = e }) (pos n)
        ≡ record { start = exact_index n s; end = exact_index n e }
  unfolding abs
  abs_exact (pos s) (pos e) h k = refl
  abs_exact (pos s) (negsuc e) h k = rw (wrap_sum (negsuc e) (pos n) (omega arith) (omega arith))
  abs_exact (negsuc s) (pos e) h k = rw (wrap_sum (negsuc s) (pos n) (omega arith) (omega arith))
  abs_exact (negsuc s) (negsuc e) h k =
      rw (wrap_sum (negsuc s) (pos n) (omega arith) (omega arith))
        (rw (wrap_sum (negsuc e) (pos n) (omega arith) (omega arith)))

  module _ (s e : ℤ) (h : IsModest s) (k : IsModest e) where
    length_exact : wrap_int64 (wrap_int64 (e -ℤ s) +ℤ pos 1) ≡ e -ℤ s +ℤ pos 1
    length_exact = rw (wrap_difference e s (omega arith) (omega arith)) (
        wrap_sum (e -ℤ s) (pos 1) (omega (arith, -ℤ_parts e s, parts_canonical (e -ℤ s)))
          (omega (arith, -ℤ_parts e s, parts_canonical (e -ℤ s))))

    -- Adding what `sizeMul * size` can be does not wrap either.
    total_exact : (z : ℤ) → IsModest z → wrap_int64 (e -ℤ s +ℤ pos 1 +ℤ z) ≡ e -ℤ s +ℤ pos 1 +ℤ z
    total_exact z m =
        let l = e -ℤ s +ℤ pos 1 in
        wrap_sum l z (omega (arith, -ℤ_parts e s, +ℤ_parts (e -ℤ s) (pos 1), parts_canonical l))
          (omega (arith, -ℤ_parts e s, +ℤ_parts (e -ℤ s) (pos 1), parts_canonical l))

    abs_length_exact :
        (z : ℤ)
        → IsModest z
        → wrap_int64 (size_mul (record { start = s; end = e }) *ℤ pos n) ≡ z
        → abs_length (record { start = s; end = e }) (pos n) ≡ e -ℤ s +ℤ pos 1 +ℤ z
    unfolding abs_length range_length
    abs_length_exact z m t = rw (length_exact, t) (total_exact z m)

  size_term_one : wrap_int64 (pos 1 *ℤ pos n) ≡ pos n
  unfolding ◌*ℤ◌ wrap_int64
  size_term_one = ground arith

  size_term_zero : wrap_int64 (pos 0 *ℤ pos n) ≡ pos 0
  unfolding ◌*ℤ◌ wrap_int64
  size_term_zero = ground arith

  size_term_minus : wrap_int64 (negsuc 0 *ℤ pos n) ≡ pos 0 -ℤ pos n
  unfolding ◌*ℤ◌ wrap_int64 ◌-ℤ◌
  size_term_minus = ground arith

  minus-IsModest : IsModest (pos 0 -ℤ pos n)
  unfolding ◌-ℤ◌
  minus-IsModest = ground arith

-- `AbsLength` of the exact bounds.
abbrev HasAbsLength : Range → ℕ → Type 0
HasAbsLength r n = abs_length r (pos n) ≡ (abs r (pos n)).end -ℤ (abs r (pos n)).start +ℤ pos 1

regroup_none : (s e : ℤ) → e -ℤ s +ℤ pos 1 +ℤ pos 0 ≡ e -ℤ s +ℤ pos 1
regroup_none s e = omega int_laws

regroup_end : (s e n : ℤ) → e -ℤ s +ℤ pos 1 +ℤ n ≡ e +ℤ n -ℤ s +ℤ pos 1
regroup_end s e n = omega int_laws

regroup_start : (s e n : ℤ) → e -ℤ s +ℤ pos 1 +ℤ (pos 0 -ℤ n) ≡ e -ℤ (s +ℤ n) +ℤ pos 1
regroup_start s e n = omega int_laws

regroup_both : (s e n : ℤ) → e -ℤ s +ℤ pos 1 +ℤ pos 0 ≡ e +ℤ n -ℤ (s +ℤ n) +ℤ pos 1
regroup_both s e n = omega int_laws

abs_length_bounds :
    (s e : ℤ) (n : ℕ)
    → IsModest s
    → IsModest e
    → n < 2 ^ 61
    → (e ≢ pos 0) ⊎ (pos 0 ≤ℤ s)
    → HasAbsLength (record { start = s; end = e }) n
unfolding size_mul
abs_length_bounds (pos s) (pos e) n h k m ok = rw (abs_exact n m _ _ h k) (
    abs_length_exact n m _ _ h k (pos 0) (omega arith) (size_term_zero n m)
    ∙ regroup_none (pos s) (pos e))
abs_length_bounds (pos s) (negsuc e) n h k m ok = rw (abs_exact n m _ _ h k) (
    abs_length_exact n m _ _ h k (pos n) (omega arith) (size_term_one n m)
    ∙ regroup_end (pos s) (negsuc e) (pos n))
abs_length_bounds (negsuc s) (pos zero) n h k m (inl ne) = absurd (ne refl)
abs_length_bounds (negsuc s) (pos zero) n h k m (inr le) = absurd (omega arith)
abs_length_bounds (negsuc s) (pos (suc e)) n h k m ok = rw (abs_exact n m _ _ h k) (
    abs_length_exact n m _ _ h k (pos 0 -ℤ pos n) (minus-IsModest n m)
      (ground (arith, size_term_minus n m))
    ∙ regroup_start (negsuc s) (pos (suc e)) (pos n))
abs_length_bounds (negsuc s) (negsuc e) n h k m ok = rw (abs_exact n m _ _ h k) (
    abs_length_exact n m _ _ h k (pos 0) (omega arith) (size_term_zero n m)
    ∙ regroup_both (negsuc s) (negsuc e) (pos n))

-- `AbsLength` is the number of bytes from the first to the last byte that `Abs` gives, for a size
-- and bounds below 2^61, unless the range starts from the end and ends at byte 0.
pub abs_length-abs :
    (r : Range) (n : ℕ)
    → IsModestRange r
    → n < 2 ^ 61
    → (r.end ≢ pos 0) ⊎ (pos 0 ≤ℤ r.start)
    → HasAbsLength r n
abs_length-abs r n h m ok = abs_length_bounds r.start r.end n h.start h.end m ok

-- A range from the s-th byte before the end to byte 0 has the length s + 1 whatever the size n is,
-- where the bounds that `Abs` gives make it s + 1 - n.
pub abs_length_end_zero :
    (s n : ℕ)
    → suc s < 2 ^ 61
    → n < 2 ^ 61
    → let r : Range = record { start = negsuc s; end = pos 0 } in
      (abs_length r (pos n) ≡ pos (s + 2))
      × ((abs r (pos n)).end -ℤ (abs r (pos n)).start +ℤ pos 1 ≡ pos (s + 2) -ℤ pos n)
abs_length_end_zero s n h m = (
  abs_length_exact n m (negsuc s) (pos 0) (omega arith) (omega arith) (pos 0) (omega arith)
        (unfold size_mul in size_term_zero n m)
      ∙ omega int_laws,
  rw (abs_exact n m (negsuc s) (pos 0) (omega arith) (omega arith)) (omega int_laws),
)

-- One index, made absolute, is not negative exactly when it lies in the data or behind it.
index_negative : (n : ℕ) (i : ℤ) → (is_negative (exact_index n i) ≡ false) ↔ (neg_part i ≤ n)
unfolding ◌+ℤ◌
index_negative n (pos i) = ground arith
index_negative n (negsuc i) = ground arith

abs-is_absolute_bounds :
    (s e : ℤ) (n : ℕ)
    → IsModest s
    → IsModest e
    → n < 2 ^ 61
    → (is_absolute (abs (record { start = s; end = e }) (pos n)) ≡ true)
      ↔ ((neg_part s ≤ n) × (neg_part e ≤ n))
unfolding is_absolute
abs-is_absolute_bounds s e n h k m =
    rw (abs_exact n m s e h k) (grind (arith, index_negative n s, index_negative n e))

abs_of_is_absolute :
    (s e n : ℤ)
    → is_absolute (record { start = s; end = e }) ≡ true
    → abs (record { start = s; end = e }) n ≡ record { start = s; end = e }
unfolding is_absolute abs
abs_of_is_absolute (pos s) (pos e) n h = refl
abs_of_is_absolute (negsuc s) _ n h = cc
abs_of_is_absolute (pos s) (negsuc e) n h = cc

-- `Abs` gives an absolute range exactly when no index lies more than the size before byte 0
-- (bounds and size below 2^61), and leaves an absolute range alone.
pub abs-is_absolute :
    (r : Range) (n : ℕ)
    → IsModestRange r
    → n < 2 ^ 61
    → ((is_absolute (abs r (pos n)) ≡ true) ↔ ((neg_part r.start ≤ n) × (neg_part r.end ≤ n)))
      × (is_absolute r ≡ true → abs r (pos n) ≡ r)
abs-is_absolute r n h m = (
  abs-is_absolute_bounds r.start r.end n h.start h.end m,
  abs_of_is_absolute r.start r.end (pos n),
)
