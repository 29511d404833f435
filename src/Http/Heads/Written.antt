-- ===== src/Http/Heads/Written.antt =====
-- What the formatters write of a header, and that it is read back.
pub mod Fields
use jotpot_server.Base.{
  ◌≡◌, refl, sym, ap, ◌∙◌, List, [], ◌∷◌, ◌++◌, arith, Option, none, inl, inr, ◌⊎◌, false, Bytes,
  All, append_assoc, length-append, All-append, Store,
}
use mathlib.Core.List.{append-nil, map, Perm}
use mathlib.Core.List.Perm
use jotpot_server.Http.Chars.{is_v_char, is_whitespace}
use jotpot_server.Http.Header.{for_each}
use jotpot_server.Http.Heads.{
  ReadError, returned, parse_headers, value_pieces, field_pieces, append_all, format_headers,
  write_all, write_headers,
}
use jotpot_server.Http.Heads.Scan.{IsLong, IsToken, IsVChar, crlf}
use jotpot_server.Http.Heads.Fields.{
  HeaderField, Later, IsField, AreLater, words, field_value, field_line,
}
use jotpot_server.Http.Heads.Lines.{reader}
use jotpot_server.Http.Heads.RoundTrip.{field_lines, add_fields, parse_headers-field_lines}
pub use jotpot_server.Http.Heads.Written.Fields.{IsPlain, add_joined, all_bytes}
use jotpot_server.Http.Heads.Written.Fields.{
  joined, as_field, as_fields, lines_of, field_lines-lines_of, for_each-lines_of,
  format_headers-lines_of, as_fields-IsField, add_fields-as_fields,
}

-- What `FormatHeaders` writes of a header whose keys are token characters and whose values are
-- single words, with an empty line behind it, is read by `ParseHeaders` with no error: each key
-- with values is added once, with its values joined by ", ", and the reader is left behind the
-- empty line.
pub parse_headers-format_headers :
    {H : Type 0} (add : Bytes → Bytes → H → H) (m : Store (List Bytes)) (rest : Bytes)
    (e : ReadError) (h : H)
    → All IsPlain m
    → parse_headers add (reader (format_headers m ++ (13 ∷ 10 ∷ rest)) e) h
      ≡ returned (add_joined add m h) (reader rest e) none false
parse_headers-format_headers add m rest e h p =
    let text : format_headers m ++ (crlf ++ rest) ≡ field_lines (as_fields m) ++ rest =
      rw (format_headers-lines_of m, field_lines-lines_of (as_fields m))
        (sym (append_assoc (lines_of (as_fields m)) crlf rest)) in
    ap (λ bytes. parse_headers add (reader bytes e) h) text
    ∙ parse_headers-field_lines add (as_fields m) rest e h (as_fields-IsField m p)
    ∙ ap (λ h'. returned h' (reader rest e) none false) (add_fields-as_fields add m h)

-- What is written of one key.
abbrev pub line_of : Bytes × List Bytes → Bytes
line_of entry = format_headers (entry ∷ [])

abbrev pub header_lines : Store (List Bytes) → List Bytes
header_lines m = map line_of m

line_of-field :
    (key v : Bytes) (vs : List Bytes) → line_of (key, v ∷ vs) ≡ field_line (as_field key v vs)
line_of-field key v vs =
    format_headers-lines_of ((key, v ∷ vs) ∷ []) ∙ append-nil (field_line (as_field key v vs))

line_of-empty : (key : Bytes) → line_of (key, []) ≡ []
unfolding format_headers for_each
line_of-empty key = refl

lines_of-header_lines :
    (m : Store (List Bytes)) → lines_of (as_fields m) ≡ all_bytes (header_lines m)
lines_of-header_lines [] = refl
lines_of-header_lines ((key, []) ∷ m) = rw (line_of-empty key) (lines_of-header_lines m)
lines_of-header_lines ((key, v ∷ vs) ∷ m) =
    rw (line_of-field key v vs)
      (ap (◌++◌ (field_line (as_field key v vs))) (lines_of-header_lines m))

format_headers-header_lines :
    (m : Store (List Bytes)) → format_headers m ≡ all_bytes (header_lines m)
format_headers-header_lines m = format_headers-lines_of m ∙ lines_of-header_lines m

-- A writer that takes all bytes and never fails, and what it has taken.
pub record Takes {W E : Type 0} (write : Bytes → W → W × Option E) (taken : W → Bytes)
    : Type 0 where
  pub takes : (p : Bytes) (w : W) → taken (write p w).0 ≡ taken w ++ p
  pub no_error : (p : Bytes) (w : W) → (write p w).1 ≡ none

module _ {W E : Type 0} {write : Bytes → W → W × Option E} {taken : W → Bytes}
    (t : Takes write taken) where
  write_all-taken :
      (ps : List Bytes) (w : W)
      → (taken (write_all write ps w).0 ≡ append_all (taken w) ps)
        × ((write_all write ps w).1 ≡ none)
  unfolding write_all append_all
  write_all-taken [] w = (refl, refl)
  write_all-taken (p ∷ ps) w =
      let ih = write_all-taken ps (write p w).0 in
      rw (t.no_error p w, write_all) (ih.0 ∙ ap (λ o. append_all o ps) (t.takes p w), ih.1)

  write_headers-from :
      (m : Store (List Bytes)) (w : W)
      → (taken (for_each (λ key vs. write_all write (field_pieces key vs)) m w none).0
          ≡ (for_each {E = Unit {0}}
              (λ key vs o. (append_all o (field_pieces key vs), none))
              m
              (taken w)
              none).0)
        × ((for_each (λ key vs. write_all write (field_pieces key vs)) m w none).1 ≡ none)
  unfolding for_each
  write_headers-from [] w = (refl, refl)
  write_headers-from ((key, []) ∷ m) w = write_headers-from m w
  write_headers-from ((key, v ∷ vs) ∷ m) w =
      let ih = write_headers-from m (write_all write (field_pieces key (v ∷ vs)) w).0 in
      let one = write_all-taken (field_pieces key (v ∷ vs)) w in
      let step =
        ap
          (for_each (λ k ws. write_all write (field_pieces k ws)) m
            (write_all write (field_pieces key (v ∷ vs)) w).0)
          one.1 in
      (
        ap (λ r. taken r.0) step
            ∙ ih.0
            ∙ ap
                (λ o.
                  (for_each {E = Unit {0}} (λ k ws o'. (append_all o' (field_pieces k ws), none)) m
                    o none).0)
                one.0,
        ap (λ r. r.1) step ∙ ih.1,
      )

  write_headers-taken :
      (m : Store (List Bytes)) (w : W)
      → (taken (write_headers write m w).0 ≡ taken w ++ format_headers m)
        × ((write_headers write m w).1 ≡ none)
  unfolding write_headers
  write_headers-taken m w =
      let from = write_headers-from m w in
      (
        from.0
            ∙ for_each-lines_of m (taken w)
            ∙ ap (◌++◌ (taken w)) (sym (format_headers-lines_of m)),
        from.1,
      )

  -- `WriteHeaders` and `FormatHeaders` go over the same map, each in an order of its own. A writer that
  -- takes all bytes and never fails is given by the first, with no error, what `FormatHeaders` would
  -- return of each key alone, one key behind another in its order; the second returns the same
  -- lines, in its order: the lines of the one are those of the other, but for their order.
  pub write_headers-format_headers :
      (m m' : Store (List Bytes)) (w : W)
      → Perm m m'
      → (taken (write_headers write m w).0 ≡ taken w ++ all_bytes (header_lines m))
        × ((write_headers write m w).1 ≡ none)
        × (format_headers m' ≡ all_bytes (header_lines m'))
        × Perm (header_lines m) (header_lines m')
  write_headers-format_headers m m' w p =
      let (written, no_error) = write_headers-taken m w in
      (
        written ∙ ap (◌++◌ (taken w)) (format_headers-header_lines m),
        no_error,
        format_headers-header_lines m',
        Perm.map line_of p,
      )
