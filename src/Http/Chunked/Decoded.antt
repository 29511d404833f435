-- ===== src/Http/Chunked/Decoded.antt =====
-- Read of the chunked reader (http/http1/encoding/chunked/chunkedParser.go) gives the body that a
-- chunked stream carries.
pub mod Chunk
use mathlib.Core.Path.{subst}
use mathlib.Core.List.{append_assoc, append-nil}
use jotpot_server.Base.{
  ℕ, zero, suc, ◌+◌, ◌-◌, ◌≤◌, ◌≡◌, refl, ap, ap₂, sym, ◌∙◌, arith, true, false, Bool-cases, Option,
  none, some, [], ◌∷◌, ◌++◌, Bytes, length, length-append, ltb, ◌==◌, inl, inr, ◌⊎◌, if◌then◌else◌,
}
use jotpot_server.Base.Int.{ℤ, pos, negsuc}
use jotpot_server.Http.Chunked.{
  Source, eof, Result, read_source, chunk_size, next_chunk, read_data, read_chunk, read,
  consume_crlf,
}
use jotpot_server.Http.Chunked.Stream.{
  IsStream, IsLine, crlf, read_source-Gives, read_source-Idles, read_bytes_left-stream,
  consume_crlf-stream,
}
pub use jotpot_server.Http.Chunked.Decoded.Chunk.{Wire, last, chunk, At, between, within, IsRead}
use jotpot_server.Http.Chunked.Decoded.Chunk.{read_data-IsRead}

module _ {S E : Type 0} (src : Source S E) (view : S → Bytes) (h : IsStream src view)
    (tail : Bytes) where
  read_chunk-last :
      (again : S → ℕ → Option (Result S E)) (fuel : ℕ) (s : S) (k : ℕ)
      → view s ≡ crlf ++ tail
      → (r : Result S E) × (read_chunk (suc (suc fuel)) again src s 0 k ≡ some r)
        × IsRead tail view [] k r
  unfolding read_chunk
  read_chunk-last again fuel s k e =
      let (s', p, w) = consume_crlf-stream src view h fuel s tail e in
      (
        record { source = s'; bytes_left = negsuc 0; out = []; err = some eof },
        rw (read_chunk, p) refl,
        record { fits = omega arith; rest = []; split = refl; after = inr (refl, refl, refl, w) },
      )

  -- From before a chunk.
  read_between :
      (fuel : ℕ) (s : S) (k : ℕ) (body wire : Bytes)
      → Wire tail body wire
      → length wire + 4 ≤ fuel
      → view s ≡ wire
      → (r : Result S E) × (read fuel src (pos 0) s k ≡ some r) × IsRead tail view body k r
  unfolding read read_chunk
  read_between zero s k body wire w f e = ground arith
  read_between (suc zero) s k body wire w f e = ground arith
  read_between (suc (suc zero)) s k body wire w f e = ground arith
  read_between (suc (suc (suc fuel))) s k _ _ (last line l c) f e =
      let enough : length line + 3 ≤ suc (suc fuel) =
        omega (arith, f, length-append (line ++ crlf) (crlf ++ tail), length-append line crlf) in
      let (s', p, v) =
        read_bytes_left-stream src view h (suc (suc fuel)) s line (crlf ++ tail) 0 l c enough e in
      let (r, q, i) =
        read_chunk-last (λ s'' k'. read (suc (suc fuel)) src (pos 0) s'' k') fuel s' k v in
      (r, rw (read, p, q) refl, i)
  read_between (suc (suc (suc fuel))) s k _ _ (chunk line d ds body wire l c w) f e =
      let rest = (d ∷ ds) ++ (crlf ++ wire) in
      let size : (length line + 5 ≤ suc (suc (suc fuel))) × (length wire + 4 ≤ suc (suc fuel)) =
        omega (
          arith,
          f,
          length-append (line ++ crlf) rest,
          length-append line crlf,
          length-append (d ∷ ds) (crlf ++ wire),
          length-append crlf wire,
        ) in
      let enough : length line + 3 ≤ suc (suc fuel) = omega (arith, size.0) in
      let (s', p, v) =
        read_bytes_left-stream src view h (suc (suc fuel)) s line rest (suc (length ds)) l c enough
          e in
      let (r, q, i) =
        read_data-IsRead src view h tail (λ s'' k'. read (suc (suc fuel)) src (pos 0) s'' k') fuel
          s' d ds body wire k w
          (λ s'' k' e'. read_between (suc (suc fuel)) s'' k' body wire w (omega (arith, size.1)) e')
          v in
      (r, rw (read, read_chunk, p, q) refl, i)

  read-At :
      (fuel : ℕ) (s : S) (k : ℕ) (left : ℤ) (body v : Bytes)
      → At tail left body v
      → length v + 4 ≤ fuel
      → view s ≡ v
      → (r : Result S E) × (read fuel src left s k ≡ some r) × IsRead tail view body k r
  unfolding read
  read-At fuel s k _ _ _ (between body wire w) f e = read_between fuel s k body wire w f e
  read-At zero s k _ _ _ (within d ds body wire w) f e = ground arith
  read-At (suc zero) s k _ _ _ (within d ds body wire w) f e = ground arith
  read-At (suc (suc zero)) s k _ _ _ (within d ds body wire w) f e = ground arith
  read-At (suc (suc (suc fuel))) s k _ _ _ (within d ds body wire w) f e =
      let enough : length wire + 4 ≤ suc (suc fuel) =
        omega (arith, f, length-append (d ∷ ds) (crlf ++ wire), length-append crlf wire) in
      let (r, q, i) =
        read_data-IsRead src view h tail (λ s'' k'. read (suc (suc fuel)) src (pos 0) s'' k') fuel s
          d ds body wire k w
          (λ s'' k' e'. read_between (suc (suc fuel)) s'' k' body wire w enough e') e in
      (r, rw (read, q) refl, i)

-- From a source that gives the bytes of a chunked body and then others, however few at a time, a Read
-- at any point of the body with a buffer of any size k returns, on fuel of four more than the bytes
-- still to come. It gives at most k bytes, which are the next ones of the body. Without an error it
-- gives at least one, if k is not 0, and leaves the reader where the rest of the body begins; the only
-- error is EOF, where the body has ended and the source is right behind it.
pub read-IsRead :
    {S E : Type 0} (src : Source S E) (view : S → Bytes) (tail : Bytes) (s : S) (k : ℕ) (left : ℤ)
    (body : Bytes)
    → IsStream src view
    → At tail left body (view s)
    → (r : Result S E) × (read (length (view s) + 4) src left s k ≡ some r)
      × IsRead tail view body k r
read-IsRead src view tail s k left body h a =
    read-At src view h tail (length (view s) + 4) s k left body (view s) a (omega arith) refl
