-- ===== src/Http/Body.antt =====
-- The limiting and the closing writer of bodies (http/http1/bodyWriter.go). The writer below is a
-- parameter: from the bytes and its own state `W` it gives the count, the error and the new state.
pub mod Limits
pub mod Choice
use jotpot_server.Base.{
  ℕ, ◌+◌, ◌-◌, Bool, true, false, ◌||◌, Option, none, some, ◌==◌, leb, if◌then◌else◌, Bytes, length,
  take,
}
use jotpot_server.Base.Int.{ℤ, pos, negsuc, ◌+ℤ◌, ◌-ℤ◌, ltb_ℤ, eq_ℤ, wrap_int64}

pub record LimitWriteFlushCloser : Type 0 where
  pub i : ℤ
  pub l : ℤ

pub data WriteError (E : Type 0) : Type 0 where
  err_body_length_exceded err_closed_pipe : WriteError E
  inner : E → WriteError E

-- What a write returns, with the state of the writer below; or the panic of a slice out of range.
pub data Written (E W : Type 0) : Type 0 where
  written : ℕ → Option (WriteError E) → W → Written E W
  panic : Written E W

module _ {E W : Type 0} where
  abbrev pub pass_on : ℕ × Option E × W → Written E W
  pass_on (n, none, w) = written n none w
  pass_on (n, some e, w) = written n (some (inner e)) w

  -- The write of the first `size` bytes, behind which the limit is reached.
  unfoldable pub write_part : (Bytes → W → ℕ × Option E × W) → Bytes → ℕ → W → Written E W
  write_part write buf size w =
      let (n, err, w') = write (take size buf) w in
      elim err [
        | none ↦ written n (some err_body_length_exceded) w'
        | some e ↦ written n (some (if n == size then err_body_length_exceded else inner e)) w'
      ]

  -- The receiver is a value, so what a call adds to its `i` is lost with it. The capacity of `buf`
  -- is taken to be its length.
  unfoldable pub limit_write :
      (Bytes → W → ℕ × Option E × W) → LimitWriteFlushCloser → Bytes → W → Written E W
  limit_write write lw buf w =
      let size = pos (length buf) in
      let i = wrap_int64 (lw.i +ℤ size) in
      if ltb_ℤ lw.l i
      then (let overflow = wrap_int64 (size -ℤ wrap_int64 (i -ℤ lw.l)) in
          elim (wrap_int64 (size -ℤ overflow)) [
            | pos n ↦
                if n == 0
                then written 0 (some err_body_length_exceded) w
                else if leb n (length buf)
                then write_part write buf n w
                else panic
            | negsuc n ↦ panic
          ])
      else pass_on (write buf w)

  -- CloseCBWriteFlushCloser: `closed` is what its callback said last.
  unfoldable pub closing_write : (Bytes → W → ℕ × Option E × W) → Bool → Bytes → W → Written E W
  closing_write write true src w = written 0 (some err_closed_pipe) w
  closing_write write false src w = pass_on (write src w)

  -- The callback gives the error and whether the writer is closed now.
  unfoldable pub closing_close :
      (W → Option E × Bool × W) → Bool → W → Option (WriteError E) × Bool × W
  closing_close close true w = (some err_closed_pipe, true, w)
  closing_close close false w =
      let (err, closed, w') = close w in
      ((elim err [ none ↦ none | some e ↦ some (inner e) ]), closed, w')
