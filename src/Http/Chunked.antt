-- ===== src/Http/Chunked.antt =====
-- The reader of the chunked coding (http/http1/encoding/chunked/chunkedParser.go), for a source that
-- is no bufio.Reader. The source is a parameter: an io.Reader of the state S. Its reads return at
-- most the bytes asked for, and the sleeps between them are left out. What waits for a source that
-- goes on giving nothing runs on fuel.
pub mod Attempts
pub mod Stream
pub mod Decoded
use jotpot_server.Base.{
  ℕ, zero, suc, ◌+◌, ◌-◌, ◌*◌, ◌≡◌, Bool, true, false, ◌&&◌, Option, none, some, List, [], ◌∷◌,
  ◌++◌, ltb, ◌==◌, if◌then◌else◌, Bytes, length, inl, inr, ◌⊎◌,
}
use jotpot_server.Base.Int.{ℤ, pos, negsuc}
use jotpot_server.Base.Decimal.{NumError}
use jotpot_server.Base.Hex.{parse_hex}
use jotpot_server.Http.Ranges.{cut}

-- `read s k` is a call of Read with a buffer of k bytes: what was read and the error. `is_temp` is
-- IsTemp.
pub record Source (S E : Type 0) : Type 0 where
  pub read : S → ℕ → S × Bytes × Option E
  pub is_temp : E → Bool

-- `failed` is an error of the source.
pub data ReadError (E : Type 0) : Type 0 where
  eof malformed_chunks : ReadError E
  bad_size : NumError → ReadError E
  failed : E → ReadError E

-- The tests of `readSource` on what was read; `again` is the rest of the loop.
unfoldable pub if_read :
    {S E : Type 0} → Option (S × Bytes × Option E) → S → Bytes → Option (S × Bytes × Option E)
if_read again s [] = again
if_read again s (b ∷ bs) = some (s, b ∷ bs, none)

unfoldable pub if_done :
    {S E : Type 0}
    → (E → Bool)
    → Option (S × Bytes × Option E)
    → S
    → Bytes
    → Option E
    → Option (S × Bytes × Option E)
if_done is_temp again s bs none = if_read again s bs
if_done is_temp again s bs (some e) = if is_temp e then if_read again s bs else some (s, bs, some e)

-- The loop of `readSource`: `timeout` is in ms.
unfoldable pub read_source_from :
    {S E : Type 0} → ℕ → ℕ → ℕ → Source S E → S → ℕ → Option (S × Bytes × Option E)
read_source_from zero timeout waits src s k = none
read_source_from (suc fuel) timeout waits src s k =
    let (s', bs, err) = src.read s k in
    let longer = read_source_from fuel (timeout * 2) waits src s' k in
    let as_long = read_source_from fuel timeout (suc waits) src s' k in
    let again =
      if ltb 250 timeout then (if waits == 255 then some (s', bs, err) else as_long) else longer in
    if_done src.is_temp again s' bs err

-- The timeout is doubled 8 times, and then there are 256 reads.
unfoldable pub read_source : {S E : Type 0} → Source S E → S → ℕ → Option (S × Bytes × Option E)
read_source src s k = read_source_from 264 1 0 src s k

-- What the functions return that read whole parts.
pub data Run (S E A : Type 0) : Type 0 where
  got : S → A → Run S E A
  stopped : S → ReadError E → Run S E A
  out_of_fuel : Run S E A

unfoldable pub read1 : {S E : Type 0} → ℕ → Source S E → S → Run S E ℕ
read1 zero src s = out_of_fuel
read1 (suc fuel) src s = elim (read_source src s 1) [
  | none ↦ out_of_fuel
  | some (s', bs, err) ↦ elim err [
    | some e ↦ stopped s' (failed e)
    | none ↦ elim bs [ b ∷ [] ↦ got s' b | _ ↦ read1 fuel src s' ]
  ]
]

unfoldable pub read2 : {S E : Type 0} → ℕ → Source S E → S → Run S E (ℕ × ℕ)
read2 zero src s = out_of_fuel
read2 (suc fuel) src s = elim (read_source src s 2) [
  | none ↦ out_of_fuel
  | some (s', bs, err) ↦ elim err [
    | some e ↦ stopped s' (failed e)
    | none ↦ elim bs [
      | a ∷ b ∷ [] ↦ got s' (a, b)
      | a ∷ [] ↦ elim (read1 fuel src s') [
        | got s'' b ↦ got s'' (a, b)
        | stopped s'' e ↦ stopped s'' e
        | out_of_fuel ↦ out_of_fuel
      ]
      | _ ↦ read2 fuel src s'
    ]
  ]
]

-- `fill`: the bytes still missing are counted.
unfoldable pub fill : {S E : Type 0} → ℕ → Source S E → S → Bytes → ℕ → Run S E Bytes
fill zero src s buf missing = out_of_fuel
fill (suc fuel) src s buf missing = elim (read_source src s missing) [
  | none ↦ out_of_fuel
  | some (s', bs, err) ↦ elim err [
    | some e ↦ stopped s' (failed e)
    | none ↦
        let rest = fill fuel src s' (buf ++ bs) (missing - length bs) in
        if length bs == missing then got s' (buf ++ bs) else rest
  ]
]

-- The byte behind a CR, which ends the line.
unfoldable pub end_line : {S E : Type 0} → S → Bytes → ℕ → Run S E Bytes
end_line s line c = if c == 10 then got s line else stopped s malformed_chunks

-- A byte is read behind the CR that stands in the second place.
unfoldable pub end_odd_line : {S E : Type 0} → Bytes → Run S E ℕ → Run S E Bytes
end_odd_line line out_of_fuel = out_of_fuel
end_odd_line line (stopped s e) = stopped s e
end_odd_line line (got s c) = end_line s line c

unfoldable pub read_line : {S E : Type 0} → ℕ → Source S E → S → Bytes → Run S E Bytes
read_line zero src s line = out_of_fuel
read_line (suc fuel) src s line = elim (read2 fuel src s) [
  | out_of_fuel ↦ out_of_fuel
  | stopped s' e ↦ stopped s' e
  | got s' (a, b) ↦
      let rest = read_line fuel src s' (line ++ a ∷ b ∷ []) in
      if a == 13
      then end_line s' line b
      else if b == 13
      then end_odd_line (line ++ a ∷ []) (read1 fuel src s')
      else rest
]

-- The part of the line before the extensions, as a number of 31 bits.
unfoldable pub chunk_size : Bytes → ℕ ⊎ NumError
chunk_size line = elim (cut b';' line) [
  | none ↦ parse_hex 31 line
  | some (size, exts) ↦ parse_hex 31 size
]

unfoldable pub read_bytes_left : {S E : Type 0} → ℕ → Source S E → S → Run S E ℕ
read_bytes_left fuel src s = elim (read_line fuel src s []) [
  | out_of_fuel ↦ out_of_fuel
  | stopped s' e ↦ stopped s' e
  | got s' line ↦ elim (chunk_size line) [ inl n ↦ got s' n | inr e ↦ stopped s' (bad_size e) ]
]

unfoldable pub consume_crlf : {S E : Type 0} → ℕ → Source S E → S → Run S E Unit
consume_crlf fuel src s = elim (read2 fuel src s) [
  | out_of_fuel ↦ out_of_fuel
  | stopped s' e ↦ stopped s' e
  | got s' (a, b) ↦ if a == 13 && b == 10 then got s' tt else stopped s' malformed_chunks
]

-- What `Read` leaves and returns: the source, `bytesLeft`, the bytes and the error.
pub record Result (S E : Type 0) : Type 0 where
  pub source : S
  pub bytes_left : ℤ
  pub out : Bytes
  pub err : Option (ReadError E)

-- What `Read` does behind a whole chunk, by what consuming the CRLF gives; k bytes of the buffer are
-- left, which `again` reads.
unfoldable pub next_chunk :
    {S E : Type 0} → (S → ℕ → Option (Result S E)) → Bytes → ℕ → Run S E Unit → Option (Result S E)
next_chunk again bs k out_of_fuel = none
next_chunk again bs k (stopped s e) =
    some (record { source = s; bytes_left = pos 0; out = bs; err = some e })
next_chunk again bs k (got s _) = elim (again s k) [
  | none ↦ none
  | some r ↦ some (record r { out = bs ++ r.out })
]

-- The later part of `Read`: at most k of the chunk's n bytes are read, and at the end of the chunk
-- `again` reads the rest of the buffer.
unfoldable pub read_data :
    {S E : Type 0}
    → ℕ
    → (S → ℕ → Option (Result S E))
    → Source S E
    → S
    → ℕ
    → ℕ
    → Option (Result S E)
read_data fuel again src s n k = elim (read_source src s (if ltb n k then n else k)) [
  | none ↦ none
  | some (s', bs, err) ↦ elim err [
    | some e ↦ some (record { source = s'; bytes_left = negsuc 0; out = bs; err = some (failed e) })
    | none ↦
        if n - length bs == 0
        then next_chunk again bs (k - length bs) (consume_crlf fuel src s')
        else some (record { source = s'; bytes_left = pos (n - length bs); out = bs; err = none })
  ]
]

-- What follows the size of a chunk; a chunk of size 0 is the last one.
unfoldable pub read_chunk :
    {S E : Type 0}
    → ℕ
    → (S → ℕ → Option (Result S E))
    → Source S E
    → S
    → ℕ
    → ℕ
    → Option (Result S E)
read_chunk fuel again src s zero k = elim (consume_crlf fuel src s) [
  | out_of_fuel ↦ none
  | stopped s' e ↦ some (record { source = s'; bytes_left = negsuc 0; out = []; err = some e })
  | got s' _ ↦ some (record { source = s'; bytes_left = negsuc 0; out = []; err = some eof })
]
read_chunk fuel again src s (suc n) k = read_data fuel again src s (suc n) k

-- `Read` with a buffer of k bytes, where `bytesLeft` is the first integer.
unfoldable pub read : {S E : Type 0} → ℕ → Source S E → ℤ → S → ℕ → Option (Result S E)
read zero src left s k = none
read (suc fuel) src (negsuc n) s k =
    some (record { source = s; bytes_left = negsuc n; out = []; err = some eof })
read (suc fuel) src (pos zero) s k = elim (read_bytes_left fuel src s) [
  | out_of_fuel ↦ none
  | stopped s' e ↦ some (record { source = s'; bytes_left = negsuc 0; out = []; err = some e })
  | got s' n ↦ read_chunk fuel (λ s'' k'. read fuel src (pos 0) s'' k') src s' n k
]
read (suc fuel) src (pos (suc n)) s k =
    read_data fuel (λ s'' k'. read fuel src (pos 0) s'' k') src s (suc n) k
