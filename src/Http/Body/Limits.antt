-- ===== src/Http/Body/Limits.antt =====
-- What the limiting writer lets through.
use jotpot_server.Base.{
  ℕ, ◌-◌, ◌^◌, ◌<◌, ◌≤◌, ◌≡◌, refl, ap, ◌∙◌, arith, true, false, Option, Bytes, length, ◌==◌, leb,
}
use jotpot_server.Base.Int.{pos, ◌+ℤ◌, ◌-ℤ◌, ltb_ℤ, wrap_int64}
use jotpot_server.Http.Body.{LimitWriteFlushCloser, pass_on, write_part, limit_write}

sum : (n : ℕ) → n < 2 ^ 63 → wrap_int64 (pos 0 +ℤ pos n) ≡ pos n
unfolding wrap_int64 ◌+ℤ◌
sum n h = ground (arith, h)

difference : (m n : ℕ) → n ≤ m → m < 2 ^ 63 → wrap_int64 (pos m -ℤ pos n) ≡ pos (m - n)
unfolding wrap_int64 ◌-ℤ◌
difference m n h k = ground (arith, h, k)

-- What is left of the limit is written in the place of the rest.
to_write :
    (m n : ℕ)
    → n ≤ m
    → m < 2 ^ 63
    → wrap_int64 (pos m -ℤ wrap_int64 (pos m -ℤ wrap_int64 (pos m -ℤ pos n))) ≡ pos (m - n)
to_write m n h k = rw (difference m n h k) (
    rw (difference m (m - n) (omega arith) k)
      (difference m (m - (m - n)) (omega arith) k ∙ ap pos (omega (arith, h))))

-- From the count 0, with which every call begins, a write of at most the limit's length is passed on;
-- of a longer one, as many bytes as are over the limit are written, not as many as are within it. The
-- limit and the buffer's length are below 2^63.
pub limit_write_correct :
    {E W : Type 0} (write : Bytes → W → ℕ × Option E × W) (limit : ℕ) (buf : Bytes) (w : W)
    → limit < 2 ^ 63
    → length buf < 2 ^ 63
    → let lw : LimitWriteFlushCloser = record { i = pos 0; l = pos limit } in
      (length buf ≤ limit → limit_write write lw buf w ≡ pass_on (write buf w))
      × (limit < length buf
          → limit_write write lw buf w ≡ write_part write buf (length buf - limit) w)
unfolding limit_write
limit_write_correct write limit buf w h k = (
  λ le.
      let fits : ltb_ℤ (pos limit) (pos (length buf)) ≡ false = ground (arith, le) in
      rw (sum (length buf) k, fits) refl,
  λ lt.
      let over : ltb_ℤ (pos limit) (pos (length buf)) ≡ true = ground (arith, lt) in
      let some_left : (length buf - limit == 0) ≡ false = ground (arith, lt) in
      let inside : leb (length buf - limit) (length buf) ≡ true = ground (arith, lt) in
      rw (sum (length buf) k, over)
        (rw (to_write (length buf) limit (omega (arith, lt)) k) (rw (some_left, inside) refl)),
)
