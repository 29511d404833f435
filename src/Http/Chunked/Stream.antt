-- ===== src/Http/Chunked/Stream.antt =====
-- The parts of the chunked reader on a source that gives the bytes of a stream, however few at a time
-- (http/http1/encoding/chunked/chunkedParser.go).
use mathlib.Core.Path.{subst}
use mathlib.Core.List.{append_assoc, append-nil}
use jotpot_server.Base.{
  ℕ, zero, suc, ◌+◌, ◌≤◌, ◌≡◌, ◌≢◌, refl, ap, ap₂, sym, ◌∙◌, arith, Bool, false, Option, none, some,
  [], ◌∷◌, ◌++◌, Bytes, length, ◌==◌, inl, inr, ◌⊎◌, All,
}
use jotpot_server.Http.Chunked.{
  Source, got, read_source_from, read_source, if_done, if_read, read1, read2, read_line, end_line,
  end_odd_line, read_bytes_left, chunk_size, consume_crlf,
}
use jotpot_server.Http.Chunked.Attempts.{
  PassesOn, some_bytes, gave_up, read_source-IsLast, Tries-kept,
}

-- At least one and at most k bytes of what is still to come, without an error.
pub record Gives {S E : Type 0} (view : S → Bytes) (s : S) (k : ℕ) (r : S × Bytes × Option E)
    : Type 0 where
  pub first : ℕ
  pub rest : Bytes
  pub bytes : r.1 ≡ first ∷ rest
  pub no_error : r.2 ≡ none
  pub fits : length (first ∷ rest) ≤ k
  pub seen : view s ≡ first ∷ rest ++ view r.0

-- Nothing has been read, and there was no error.
pub record Idles {S E : Type 0} (view : S → Bytes) (v : Bytes) (r : S × Bytes × Option E)
    : Type 0 where
  pub no_bytes : r.1 ≡ []
  pub no_error : r.2 ≡ none
  pub same : view r.0 ≡ v

-- What an io.Reader promises that neither fails nor returns early without a byte: while there are
-- bytes to come it gives some of them, and with an empty buffer none.
pub record IsStream {S E : Type 0} (src : Source S E) (view : S → Bytes) : Type 0 where
  pub gives : (s : S) (k : ℕ) → view s ≢ [] → Gives view s (suc k) (src.read s (suc k))
  pub idles : (s : S) → Idles view (view s) (src.read s 0)

if_done-read :
    {S E : Type 0} (is_temp : E → Bool) (again : Option (S × Bytes × Option E)) (s : S) (b : ℕ)
    (bs rest : Bytes) (err : Option E)
    → bs ≡ b ∷ rest
    → err ≡ none
    → if_done is_temp again s bs err ≡ some (s, b ∷ rest, none)
unfolding if_done if_read
if_done-read is_temp again s b bs rest err p q = rw (p, q) refl

passed_clean :
    {E : Type 0} {is_temp : E → Bool} {n : ℕ} {bs : Bytes} {err : Option E}
    → PassesOn is_temp n bs none err
    → err ≡ none
passed_clean (some_bytes b bs e h) = refl
passed_clean (gave_up e i h) = refl

module _ {S E : Type 0} (src : Source S E) (view : S → Bytes) (h : IsStream src view) where
  -- The first read is enough.
  read_source_from-Gives :
      (fuel timeout waits : ℕ) (s : S) (k : ℕ) (n : view s ≢ [])
      → read_source_from (suc fuel) timeout waits src s (suc k)
        ≡ some ((src.read s (suc k)).0, (h.gives s k n).first ∷ (h.gives s k n).rest, none)
  unfolding read_source_from
  read_source_from-Gives fuel timeout waits s k n =
      let g = h.gives s k n in if_done-read src.is_temp _ _ _ _ _ _ g.bytes g.no_error

  pub read_source-Gives :
      (s : S) (k : ℕ) (n : view s ≢ [])
      → read_source src s (suc k)
        ≡ some ((src.read s (suc k)).0, (h.gives s k n).first ∷ (h.gives s k n).rest, none)
  unfolding read_source
  read_source-Gives s k n = read_source_from-Gives 263 1 0 s k n

  pub read_source-Idles :
      (s : S) → (r : S × Bytes × Option E) × (read_source src s 0 ≡ some r) × Idles view (view s) r
  read_source-Idles s =
      let (r, p, l) = read_source-IsLast src s 0 in
      let kept : view l.at ≡ view s =
        Tries-kept src 0 s (λ t. view t ≡ view s) (λ t e. (h.idles t).same ∙ e) refl l.tries in
      let i = h.idles l.at in
      let left : (src.read l.at 0).0 ≡ r.0 = ap (λ q. q.0) l.read in
      let clean : l.error_read ≡ none = sym (ap (λ q. q.2) l.read) ∙ i.no_error in
      (
        r,
        p,
        record {
          no_bytes = sym (ap (λ q. q.1) l.read) ∙ i.no_bytes;
          no_error =
              passed_clean (subst (λ e. PassesOn src.is_temp l.before r.1 e r.2) clean l.passes_on);
          same = sym (ap view left) ∙ i.same ∙ kept;
        },
      )

one_byte :
    (first : ℕ) (rest v' : Bytes) (c : ℕ) (v : Bytes)
    → length (first ∷ rest) ≤ 1
    → c ∷ v ≡ first ∷ rest ++ v'
    → (rest ≡ []) × (first ≡ c) × (v' ≡ v)
one_byte first [] v' c v k e = (refl, cc, cc)
one_byte first (x ∷ rest) v' c v k e = ground arith

two_bytes :
    (first : ℕ) (rest v' : Bytes) (a b : ℕ) (v : Bytes)
    → length (first ∷ rest) ≤ 2
    → a ∷ b ∷ v ≡ first ∷ rest ++ v'
    → (first ≡ a) × (((rest ≡ []) × (v' ≡ b ∷ v)) ⊎ ((rest ≡ b ∷ []) × (v' ≡ v)))
two_bytes first [] v' a b v k e = (cc, inl (refl, cc))
two_bytes first (x ∷ []) v' a b v k e = (cc, inr (cc, cc))
two_bytes first (x ∷ y ∷ rest) v' a b v k e = ground arith

module _ {S E : Type 0} (src : Source S E) (view : S → Bytes) (h : IsStream src view) where
  read1-stream :
      (fuel : ℕ) (s : S) (c : ℕ) (v : Bytes)
      → view s ≡ c ∷ v
      → (s' : S) × (read1 (suc fuel) src s ≡ got s' c) × (view s' ≡ v)
  unfolding read1
  read1-stream fuel s c v e =
      let n : view s ≢ [] = λ z. ground (arith, e, z) in
      let g = h.gives s 0 n in
      let (r, f, w) = one_byte g.first g.rest (view (src.read s 1).0) c v g.fits (sym e ∙ g.seen) in
      ((src.read s 1).0, rw (read1, read_source-Gives src view h s 0 n, r, f), w)

  pub read2-stream :
      (fuel : ℕ) (s : S) (a b : ℕ) (v : Bytes)
      → view s ≡ a ∷ b ∷ v
      → (s' : S) × (read2 (suc (suc fuel)) src s ≡ got s' (a, b)) × (view s' ≡ v)
  unfolding read2
  read2-stream fuel s a b v e =
      let n : view s ≢ [] = λ z. ground (arith, e, z) in
      let g = h.gives s 1 n in
      let s' = (src.read s 2).0 in
      let (f, which) = two_bytes g.first g.rest (view s') a b v g.fits (sym e ∙ g.seen) in
      elim which [
        | inl (r, w) ↦
            let (s'', p, w') = read1-stream fuel s' b v w in
            let q : read_source src s 2 ≡ some (s', a ∷ [], none) =
              read_source-Gives src view h s 1 n ∙ ap₂ (λ x y. some (s', x ∷ y, none)) f r in
            (s'', rw (read2, q, p), w')
        | inr (r, w) ↦
            let q : read_source src s 2 ≡ some (s', a ∷ b ∷ [], none) =
              read_source-Gives src view h s 1 n ∙ ap₂ (λ x y. some (s', x ∷ y, none)) f r in
            (s', rw (read2, q), w)
      ]

-- The line has no CR.
abbrev pub IsLine : Bytes → Type 0
IsLine line = All (λ c. (c == 13) ≡ false) line

abbrev pub crlf : Bytes
crlf = 13 ∷ 10 ∷ []

module _ {S E : Type 0} (src : Source S E) (view : S → Bytes) (h : IsStream src view) where
  read_line-stream :
      (fuel : ℕ) (s : S) (done line v : Bytes)
      → IsLine line
      → length line + 3 ≤ fuel
      → view s ≡ line ++ crlf ++ v
      → (s' : S) × (read_line fuel src s done ≡ got s' (done ++ line)) × (view s' ≡ v)
  unfolding read_line end_line end_odd_line
  read_line-stream zero s done line v l f e = ground arith
  read_line-stream (suc zero) s done line v l f e = ground arith
  read_line-stream (suc (suc zero)) s done line v l f e = ground arith
  read_line-stream (suc (suc (suc fuel))) s done [] v l f e =
      let (s', p, w) = read2-stream src view h fuel s 13 10 v e in
      (s', rw (read_line, p, append-nil done), w)
  read_line-stream (suc (suc (suc fuel))) s done (a ∷ []) v l f e =
      let (s', p, w) = read2-stream src view h fuel s a 13 (10 ∷ v) e in
      let (s'', q, w') = read1-stream src view h (suc fuel) s' 10 v w in
      (s'', rw (read_line, p, l.0, q), w')
  read_line-stream (suc (suc (suc fuel))) s done (a ∷ b ∷ line) v l f e =
      let (s', p, w) = read2-stream src view h fuel s a b (line ++ crlf ++ v) e in
      let (s'', q, w') =
        read_line-stream (suc (suc fuel)) s' (done ++ a ∷ b ∷ []) line v l.1.1 (omega (arith, f))
          w in
      (s'', rw (read_line, p, l.0, l.1.0, q, append_assoc done (a ∷ b ∷ []) line), w')

  pub read_bytes_left-stream :
      (fuel : ℕ) (s : S) (line v : Bytes) (n : ℕ)
      → IsLine line
      → chunk_size line ≡ inl n
      → length line + 3 ≤ fuel
      → view s ≡ line ++ crlf ++ v
      → (s' : S) × (read_bytes_left fuel src s ≡ got s' n) × (view s' ≡ v)
  unfolding read_bytes_left
  read_bytes_left-stream fuel s line v n l c f e =
      let (s', p, w) = read_line-stream fuel s [] line v l f e in
      (s', rw (read_bytes_left, p, c), w)

  pub consume_crlf-stream :
      (fuel : ℕ) (s : S) (v : Bytes)
      → view s ≡ crlf ++ v
      → (s' : S) × (consume_crlf (suc (suc fuel)) src s ≡ got s' tt) × (view s' ≡ v)
  unfolding consume_crlf
  consume_crlf-stream fuel s v e =
      let (s', p, w) = read2-stream src view h fuel s 13 10 v e in (s', rw (consume_crlf, p), w)
