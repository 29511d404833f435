-- ===== src/Http/Heads/RoundTrip.antt =====
-- What the parser gives for the lines of well-formed fields.
use jotpot_server.Base.{
  ℕ, zero, suc, ◌≤◌, ◌<◌, ◌≡◌, refl, ap, ◌∙◌, List, [], ◌∷◌, ◌++◌, arith, Option, none, false,
  Bytes, All, length, append_assoc, length-append,
}
use mathlib.Core.List.{append-nil}
use jotpot_server.Http.Chars.{is_whitespace}
use jotpot_server.Http.Heads.{
  Reader, ReadError, Line, read_bytes, line_end, value_from, Field, field, read_value, read_field,
  next_line, returned, headers_from, parse_headers, short_line,
}
use jotpot_server.Http.Heads.Scan.{
  IsLong, crlf, IsToken, behind_all, behind_all-line_end, behind_all-blank_end, token_not_blank,
}
use jotpot_server.Http.Heads.Fields.{
  HeaderField, IsField, words, field_value, field_line, ending, scan_field_value,
}
use jotpot_server.Http.Heads.Lines.{
  reader, whole, read_bytes-field_line, short_line-field_line, split_key-key, StartsDark,
  starts_dark, StartsDark-value, split_blanks-dark, read_bytes-cons, ReadsField,
  value_from-line_end, value_from-blank_end,
}

-- The loop over the value of a well-formed field, when something other than whitespace follows.
value_from-field_value :
    (fuel : ℕ) (f : HeaderField) (after : Bytes) (c : ℕ) (bs : Bytes) (e : ReadError)
    → f.after ≡ after
    → IsField f
    → is_whitespace c ≡ false
    → ReadsField (reader (c ∷ bs) e) (field_value f) (
        value_from
          (suc fuel)
          (reader (c ∷ bs) e)
          none
          []
          0
          (f.first ++ (words f.later ++ (f.after ++ crlf))))
value_from-field_value fuel f [] c bs e p h k =
    let (t, text) = read_bytes-cons c bs e in
    value_from-line_end fuel (reader (c ∷ bs) e) (field_value f) _ c t
      (scan_field_value f h
        ∙ ap (λ a. behind_all (field_value f) (ending a)) p
        ∙ behind_all-line_end (field_value f) [] 0 crlf
        ∙ ap (λ v. line_end v 0 crlf) (append-nil (field_value f)))
      text k
value_from-field_value fuel f (b ∷ after) c bs e p h k =
    value_from-blank_end fuel (reader (c ∷ bs) e) (field_value f) (b ∷ after) _ (
      scan_field_value f h
      ∙ ap (λ a. behind_all (field_value f) (ending a)) p
      ∙ behind_all-blank_end (field_value f) (b ∷ after) (suc (length after)))

-- What is read of a line: the field, and the reader before the next line.
record ReadsLine (r : Reader) (f : HeaderField) (x : Field) : Type 0 where
  next : Option Line
  left : Reader
  is_field : x ≡ field f.key (field_value f) next left
  next_is : next_line next left ≡ read_bytes r

read_field-field_line :
    (f : HeaderField) (c : ℕ) (bs : Bytes) (e : ReadError)
    → IsField f
    → is_whitespace c ≡ false
    → ReadsLine (reader (c ∷ bs) e) f (read_field (reader (c ∷ bs) e) (field_line f))
unfolding read_field read_value
read_field-field_line f c bs e h k =
    let v = value_from-field_value (length (c ∷ bs)) f f.after c bs e refl h k in
    let key =
      split_key-key f.key (f.before ++ (f.first ++ (words f.later ++ (f.after ++ crlf))))
        h.key_tokens h.key_starts in
    let blank =
      split_blanks-dark f.before (f.first ++ (words f.later ++ (f.after ++ crlf))) h.before_blank
        (StartsDark-value f (10 ∷ []) h) in
    record {
      next = v.next;
      left = v.left;
      is_field = rw (key, read_field) (rw (blank, read_value) (rw v.is_value refl));
      next_is = v.next_is;
    }

abbrev pub field_lines : List HeaderField → Bytes
field_lines [] = crlf
field_lines (f ∷ fs) = field_line f ++ field_lines fs

pub StartsDark-key : (key x : Bytes) → All IsToken key → IsLong (0 ∷ key) → StartsDark (key ++ x)
StartsDark-key [] x h l = absurd (omega (arith, l))
StartsDark-key (b ∷ key) x h l = starts_dark b (key ++ x) (token_not_blank b h.0)

pub StartsDark-field_lines :
    (fs : List HeaderField) (rest : Bytes) → All IsField fs → StartsDark (field_lines fs ++ rest)
StartsDark-field_lines [] rest h = starts_dark 13 _ (unfold is_whitespace in refl)
StartsDark-field_lines (f ∷ fs) rest h = rw (append_assoc (field_line f) (field_lines fs) rest) (
    rw
      (append_assoc f.key (58 ∷ (f.before ++ (f.first ++ (words f.later ++ (f.after ++ crlf)))))
        (field_lines fs ++ rest))
      (StartsDark-key f.key _ h.0.key_tokens h.0.key_starts))

module _ {H : Type 0} (add : Bytes → Bytes → H → H) where
  abbrev pub add_fields : List HeaderField → H → H
  add_fields [] h = h
  add_fields (f ∷ fs) h = add_fields fs (add f.key (field_value f) h)

  headers_from-field :
      (fuel : ℕ) (h : H) (f : HeaderField) (r : Reader)
      → IsField f
      → ReadsLine r f (read_field r (field_line f))
      → headers_from add (suc fuel) h (whole (field_line f)) r
        ≡ headers_from add fuel (add f.key (field_value f) h) (read_bytes r).0 (read_bytes r).1
  unfolding headers_from
  headers_from-field fuel h f r i l =
      rw (short_line-field_line f i, headers_from)
        (rw (l.is_field, headers_from) (rw l.next_is refl))

  -- The two results of `read_bytes`, where they are known.
  pub from_line :
      (fuel : ℕ) (h : H) (line : Line) (r : Reader) (s : Reader)
      → read_bytes s ≡ (line, r)
      → headers_from add fuel h (read_bytes s).0 (read_bytes s).1 ≡ headers_from add fuel h line r
  from_line fuel h line r s p = rw p refl

  pub field_next :
      (fuel : ℕ) (h : H) (f : HeaderField) (x : Bytes) (e : ReadError)
      → IsField f
      → StartsDark x
      → headers_from add
          (suc fuel)
          h
          (read_bytes (reader (field_line f ++ x) e)).0
          (read_bytes (reader (field_line f ++ x) e)).1
        ≡ headers_from add fuel
            (add f.key (field_value f) h)
            (read_bytes (reader x e)).0
            (read_bytes (reader x e)).1
  field_next fuel h f _ e i (starts_dark c v k) =
      from_line (suc fuel) h (whole (field_line f)) (reader (c ∷ v) e) _
        (read_bytes-field_line f (c ∷ v) e i)
      ∙ headers_from-field fuel h f (reader (c ∷ v) e) i (read_field-field_line f c v e i k)

  headers_from-end :
      (fuel : ℕ) (h : H) (rest : Bytes) (e : ReadError)
      → headers_from add
          (suc fuel)
          h
          (read_bytes (reader (crlf ++ rest) e)).0
          (read_bytes (reader (crlf ++ rest) e)).1
        ≡ returned h (reader rest e) none false
  unfolding headers_from read_bytes short_line
  headers_from-end fuel h rest e = refl

  headers_from-field_lines :
      (fuel : ℕ) (h : H) (fs : List HeaderField) (rest : Bytes) (e : ReadError)
      → All IsField fs
      → length fs < fuel
      → headers_from add fuel h
          (read_bytes (reader (field_lines fs ++ rest) e)).0
          (read_bytes (reader (field_lines fs ++ rest) e)).1
        ≡ returned (add_fields fs h) (reader rest e) none false
  headers_from-field_lines zero h fs rest e i l = absurd (omega (arith, l))
  headers_from-field_lines (suc fuel) h [] rest e i l = headers_from-end fuel h rest e
  headers_from-field_lines (suc fuel) h (f ∷ fs) rest e i l =
      rw (append_assoc (field_line f) (field_lines fs) rest) (
        field_next fuel h f (field_lines fs ++ rest) e i.0 (StartsDark-field_lines fs rest i.1)
        ∙ headers_from-field_lines fuel (add f.key (field_value f) h) fs rest e i.1
            (omega (arith, l)))

length-field_lines : (fs : List HeaderField) → length fs ≤ length (field_lines fs)
length-field_lines [] = omega arith
length-field_lines (f ∷ fs) =
    let one : 1 ≤ length (field_line f) = omega (
      arith,
      length-append f.key (58 ∷ (f.before ++ (f.first ++ (words f.later ++ (f.after ++ crlf))))),
    ) in
    omega (arith, one, length-append (field_line f) (field_lines fs), length-field_lines fs)

-- The lines of any number of fields and an empty line are read with no error: each name and value
-- is added in order, without the whitespace around the value, and the reader is left where the
-- body begins. A name is of token characters, a value's words are of visible ASCII characters with
-- whitespace between them, and a word behind whitespace has more than one byte unless the line
-- ends with it.
pub parse_headers-field_lines :
    {H : Type 0} (add : Bytes → Bytes → H → H) (fs : List HeaderField) (rest : Bytes)
    (e : ReadError) (h : H)
    → All IsField fs
    → parse_headers add (reader (field_lines fs ++ rest) e) h
      ≡ returned (add_fields add fs h) (reader rest e) none false
unfolding parse_headers
parse_headers-field_lines add fs rest e h i =
    headers_from-field_lines add (suc (length (field_lines fs ++ rest))) h fs rest e i
      (omega (arith, length-append (field_lines fs) rest, length-field_lines fs))
