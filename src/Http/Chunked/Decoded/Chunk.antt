-- ===== src/Http/Chunked/Decoded/Chunk.antt =====
-- Read of the chunked reader within a chunk (http/http1/encoding/chunked/chunkedParser.go).
use mathlib.Core.Path.{subst}
use mathlib.Core.List.{append_assoc, append-nil}
use jotpot_server.Base.{
  ℕ, zero, suc, ◌-◌, ◌≤◌, ◌≡◌, refl, ap, ap₂, sym, ◌∙◌, arith, true, false, Bool-cases, Option,
  none, some, [], ◌∷◌, ◌++◌, Bytes, length, length-append, ltb, ◌==◌, inl, inr, ◌⊎◌, if◌then◌else◌,
}
use jotpot_server.Base.Int.{ℤ, pos, negsuc}
use jotpot_server.Http.Chunked.{
  Source, eof, Result, read_source, chunk_size, next_chunk, read_data, consume_crlf,
}
use jotpot_server.Http.Chunked.Stream.{
  IsStream, IsLine, crlf, read_source-Gives, read_source-Idles, consume_crlf-stream,
}

-- The bytes `wire` are the chunks of the body, each behind its line with the size and any extensions,
-- then the last chunk with no trailers, and then `tail`.
pub data Wire (tail : Bytes) : Bytes → Bytes → Type 0 where
  last :
      (line : Bytes)
      → IsLine line
      → chunk_size line ≡ inl 0
      → Wire tail [] (line ++ crlf ++ (crlf ++ tail))
  chunk :
      (line : Bytes) (d : ℕ) (ds body wire : Bytes)
      → IsLine line
      → chunk_size line ≡ inl (suc (length ds))
      → Wire tail body wire
      → Wire tail ((d ∷ ds) ++ body) (line ++ crlf ++ ((d ∷ ds) ++ (crlf ++ wire)))

-- Where the reader is: before a chunk or within one; the body is what is still to be read.
pub data At (tail : Bytes) : ℤ → Bytes → Bytes → Type 0 where
  between : (body wire : Bytes) → Wire tail body wire → At tail (pos 0) body wire
  within :
      (d : ℕ) (ds body wire : Bytes)
      → Wire tail body wire
      → At tail (pos (suc (length ds))) ((d ∷ ds) ++ body) ((d ∷ ds) ++ (crlf ++ wire))

-- A Read of at most k bytes gave the next ones of the body: with no error, at least one unless k is
-- 0, and the reader is where the rest begins; or with EOF all of them, and the source is behind the
-- body.
pub record IsRead {S E : Type 0} (tail : Bytes) (view : S → Bytes) (body : Bytes) (k : ℕ)
    (r : Result S E) : Type 0 where
  pub fits : length r.out ≤ k
  pub rest : Bytes
  pub split : r.out ++ rest ≡ body
  pub after :
      ((r.err ≡ none) × ((k ≡ 0) ⊎ (1 ≤ length r.out)) × At tail r.bytes_left rest (view r.source))
      ⊎ ((r.err ≡ some eof) × (rest ≡ []) × (r.bytes_left ≡ negsuc 0) × (view r.source ≡ tail))

prefix_split :
    (bs xs ys v : Bytes)
    → length bs ≤ length xs
    → xs ++ ys ≡ bs ++ v
    → (zs : Bytes) × (xs ≡ bs ++ zs) × (v ≡ zs ++ ys)
prefix_split [] xs ys v h e = (xs, refl, sym e)
prefix_split (b ∷ bs) [] ys v h e = ground arith
prefix_split (b ∷ bs) (x ∷ xs) ys v h e =
    let (zs, p, q) = prefix_split bs xs ys v (omega (arith, h)) cc in (zs, cc, q)

pub least :
    (n k : ℕ)
    → (j : ℕ) × ((if ltb (suc n) (suc k) then suc n else suc k) ≡ suc j) × (j ≤ n) × (j ≤ k)
least n k = elim (Bool-cases (ltb (suc n) (suc k))) [
  | inl e ↦ (n, rw e refl, omega arith, ground (arith, e))
  | inr e ↦ (k, rw e refl, ground (arith, e), omega arith)
]

read_data_step :
    {S E : Type 0} (again : S → ℕ → Option (Result S E)) (fuel : ℕ) (src : Source S E) (s s' : S)
    (bs : Bytes) (n k : ℕ)
    → read_source src s (if ltb n k then n else k) ≡ some (s', bs, none)
    → read_data fuel again src s n k ≡ (
        if n - length bs == 0
        then next_chunk again bs (k - length bs) (consume_crlf fuel src s')
        else some (record { source = s'; bytes_left = pos (n - length bs); out = bs; err = none }))
unfolding read_data
read_data_step again fuel src s s' bs n k h = rw (read_data, h) refl

-- What the reads behind a chunk promise.
abbrev Continues :
    {S E : Type 0} → Bytes → (S → Bytes) → Bytes → Bytes → (S → ℕ → Option (Result S E)) → Type 0
Continues {S} {E} tail view body wire again =
    (s : S) (k : ℕ)
    → view s ≡ wire
    → (r : Result S E) × (again s k ≡ some r) × IsRead tail view body k r

module _ {S E : Type 0} (src : Source S E) (view : S → Bytes) (h : IsStream src view)
    (tail : Bytes) where
  next_chunk-IsRead :
      (again : S → ℕ → Option (Result S E)) (fuel : ℕ) (s : S) (b : ℕ) (bs body wire : Bytes)
      (k : ℕ)
      → Continues tail view body wire again
      → view s ≡ crlf ++ wire
      → length (b ∷ bs) ≤ k
      → (r : Result S E) × (next_chunk again
            (b ∷ bs)
            (k - length (b ∷ bs))
            (consume_crlf (suc (suc fuel)) src s)
          ≡ some r)
        × IsRead tail view ((b ∷ bs) ++ body) k r
  unfolding next_chunk
  next_chunk-IsRead again fuel s b bs body wire k c e f =
      let (s', p, w) = consume_crlf-stream src view h fuel s wire e in
      let (r, q, i) = c s' (k - length (b ∷ bs)) w in
      (
        record r { out = (b ∷ bs) ++ r.out },
        rw (p, next_chunk, q),
        record {
          fits = ground (arith, length-append (b ∷ bs) r.out, i.fits);
          rest = i.rest;
          split = append_assoc (b ∷ bs) r.out i.rest ∙ ap (λ l. (b ∷ bs) ++ l) i.split;
          after = elim i.after [ inl (p, q, t) ↦ inl (p, inr (ground arith), t) | inr t ↦ inr t ];
        },
      )

  -- Some bytes of a chunk were read, and zs are left of it.
  part-IsRead :
      (again : S → ℕ → Option (Result S E)) (fuel : ℕ) (s s' : S) (d : ℕ) (ds : Bytes) (b : ℕ)
      (bs body wire zs : Bytes) (k : ℕ)
      → Wire tail body wire
      → Continues tail view body wire again
      → d ∷ ds ≡ (b ∷ bs) ++ zs
      → view s' ≡ zs ++ (crlf ++ wire)
      → length (b ∷ bs) ≤ suc k
      → read_source src s (if ltb (suc (length ds)) (suc k) then suc (length ds) else suc k)
        ≡ some (s', b ∷ bs, none)
      → (r : Result S E) × (read_data (suc (suc fuel)) again src s (suc (length ds)) (suc k)
          ≡ some r)
        × IsRead tail view ((d ∷ ds) ++ body) (suc k) r
  part-IsRead again fuel s s' d ds b bs body wire [] k w c whole left fits q =
      let (r, p, i) = next_chunk-IsRead again fuel s' b bs body wire (suc k) c left fits in
      let all_read : (suc (length ds) - length (b ∷ bs) == 0) ≡ true =
        ground (arith, ap length whole, length-append (b ∷ bs) []) in
      (
        r,
        read_data_step again (suc (suc fuel)) src s s' (b ∷ bs) (suc (length ds)) (suc k) q
            ∙ rw all_read p,
        subst (λ l. IsRead tail view (l ++ body) (suc k) r) (sym (whole ∙ append-nil (b ∷ bs))) i,
      )
  part-IsRead again fuel s s' d ds b bs body wire (z ∷ zs) k w c whole left fits q =
      let more : (suc (length ds) - length (b ∷ bs) == 0) ≡ false =
        ground (arith, ap length whole, length-append (b ∷ bs) (z ∷ zs)) in
      let still : suc (length ds) - length (b ∷ bs) ≡ suc (length zs) =
        ground (arith, ap length whole, length-append (b ∷ bs) (z ∷ zs)) in
      (
        record {
          source = s';
          bytes_left = pos (suc (length ds) - length (b ∷ bs));
          out = b ∷ bs;
          err = none;
        },
        read_data_step again (suc (suc fuel)) src s s' (b ∷ bs) (suc (length ds)) (suc k) q
            ∙ rw more refl,
        record {
          fits = fits;
          rest = (z ∷ zs) ++ body;
          split = sym (append_assoc (b ∷ bs) (z ∷ zs) body) ∙ ap (λ l. l ++ body) (sym whole);
          after = inl (refl, inr (omega arith), rw (still, left) (within z zs body wire w));
        },
      )

  -- A Read that gives some bytes of a chunk.
  pub read_data-IsRead :
      (again : S → ℕ → Option (Result S E)) (fuel : ℕ) (s : S) (d : ℕ) (ds body wire : Bytes)
      (k : ℕ)
      → Wire tail body wire
      → Continues tail view body wire again
      → view s ≡ (d ∷ ds) ++ (crlf ++ wire)
      → (r : Result S E) × (read_data (suc (suc fuel)) again src s (suc (length ds)) k ≡ some r)
        × IsRead tail view ((d ∷ ds) ++ body) k r
  unfolding read_data
  read_data-IsRead again fuel s d ds body wire zero w c e =
      let (r, p, i) = read_source-Idles src view h s in
      let none_wanted : (if ltb (suc (length ds)) 0 then suc (length ds) else 0) ≡ 0 =
        ground arith in
      let unread : (suc (length ds) - 0 == 0) ≡ false = ground arith in
      let all_left : suc (length ds) - 0 ≡ suc (length ds) = omega arith in
      let q : read_source src s (if ltb (suc (length ds)) 0 then suc (length ds) else 0)
          ≡ some (r.0, [], none) =
        ap (read_source src s) none_wanted
        ∙ p
        ∙ ap₂ (λ x y. some (r.0, x, y)) i.no_bytes i.no_error in
      (
        record { source = r.0; bytes_left = pos (suc (length ds)); out = []; err = none },
        read_data_step again (suc (suc fuel)) src s r.0 [] (suc (length ds)) 0 q
            ∙ rw (unread, all_left) refl,
        record {
          fits = omega arith;
          rest = (d ∷ ds) ++ body;
          split = refl;
          after = inl (refl, inl refl, rw (i.same ∙ e) (within d ds body wire w));
        },
      )
  read_data-IsRead again fuel s d ds body wire (suc k) w c e =
      let (j, l, jn, jk) = least (length ds) k in
      let g = h.gives s j (λ z. ground (arith, e, z)) in
      let s' = (src.read s (suc j)).0 in
      let q : read_source src s (if ltb (suc (length ds)) (suc k) then suc (length ds) else suc k)
          ≡ some (s', g.first ∷ g.rest, none) =
        ap (read_source src s) l ∙ read_source-Gives src view h s j (λ z. ground (arith, e, z)) in
      let (zs, whole, left) =
        prefix_split (g.first ∷ g.rest) (d ∷ ds) (crlf ++ wire) (view s')
          (omega (arith, g.fits, jn)) (sym e ∙ g.seen) in
      part-IsRead again fuel s s' d ds g.first g.rest body wire zs k w c whole left
        (omega (arith, g.fits, jk)) q
