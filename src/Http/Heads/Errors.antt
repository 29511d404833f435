-- ===== src/Http/Heads/Errors.antt =====
-- Heads that the parser does not read: one that ends behind a field, and a value with a word of one
-- byte between two others.
use jotpot_server.Base.{
  ℕ, zero, suc, ◌+◌, ◌≤◌, ◌<◌, ◌≡◌, refl, sym, ap, ◌∙◌, List, [], ◌∷◌, ◌++◌, ◌==◌, arith, some,
  none, true, false, Bytes, All, length, append_assoc, length-append, All-append,
}
use mathlib.Core.List.{append-nil}
use jotpot_server.Http.Chars.{is_whitespace}
use jotpot_server.Http.Heads.{
  Reader, ReadError, read_bytes, Scanned, illegal, head, blanks, behind_v_char, scan_value,
  value_from, field_panic, refused, read_value, read_field, returned, panicked, headers_from,
  parse_headers, short_line, behind, next_place, at_head, at_line_end,
  err_illegal_character_in_header_value, stop,
}
use jotpot_server.Http.Heads.Scan.{
  IsLong, IsBlank, IsVChar, IsToken, crlf, NotNewline, until_newline-append, behind_all,
  behind_all-line_end, behind_all-illegal, scan_first, scan_word, scan_blank, scan_gap, scan_later,
  scan_value-stop, blank_not_v_char, token_not_newline, v_char_not_newline, blank_not_newline,
  v_char_not_blank,
}
use jotpot_server.Http.Heads.Fields.{
  HeaderField, IsField, words, field_value, field_line, ending, scan_field_value,
}
use jotpot_server.Http.Heads.Lines.{
  reader, whole, read_bytes-field_line, short_line-field_line, split_key-key, StartsDark,
  starts_dark, StartsDark-value, split_blanks-dark, All-map, length-suffix, short_line-long,
}
use jotpot_server.Http.Heads.RoundTrip.{add_fields, field_next, StartsDark-key, from_line}

-- The lines of fields before other bytes.
abbrev pub lines_before : List HeaderField → Bytes → Bytes
lines_before [] x = x
lines_before (f ∷ fs) x = field_line f ++ lines_before fs x

StartsDark-field_line : (f : HeaderField) (x : Bytes) → IsField f → StartsDark (field_line f ++ x)
StartsDark-field_line f x h =
    rw (append_assoc f.key (58 ∷ (f.before ++ (f.first ++ (words f.later ++ (f.after ++ crlf))))) x)
      (StartsDark-key f.key _ h.key_tokens h.key_starts)

StartsDark-lines_before :
    (fs : List HeaderField) (x : Bytes)
    → All IsField fs
    → StartsDark x
    → StartsDark (lines_before fs x)
StartsDark-lines_before [] x h d = d
StartsDark-lines_before (f ∷ fs) x h d = StartsDark-field_line f (lines_before fs x) h.0

length-lines_before :
    (fs : List HeaderField) (x : Bytes) → length fs + length x ≤ length (lines_before fs x)
length-lines_before [] x = omega arith
length-lines_before (f ∷ fs) x =
    let one : 1 ≤ length (field_line f) = omega (
      arith,
      length-append f.key (58 ∷ (f.before ++ (f.first ++ (words f.later ++ (f.after ++ crlf))))),
    ) in
    omega (arith, one, length-append (field_line f) (lines_before fs x), length-lines_before fs x)

module _ {H : Type 0} (add : Bytes → Bytes → H → H) where
  -- The fields are added, and the parser goes on behind them.
  headers_from-lines_before :
      (fuel : ℕ) (h : H) (fs : List HeaderField) (x : Bytes) (e : ReadError)
      → All IsField fs
      → StartsDark x
      → length fs < fuel
      → (fuel' : ℕ) × (headers_from add fuel h
            (read_bytes (reader (lines_before fs x) e)).0
            (read_bytes (reader (lines_before fs x) e)).1
          ≡ headers_from add
              (suc fuel')
              (add_fields add fs h)
              (read_bytes (reader x e)).0
              (read_bytes (reader x e)).1)
  headers_from-lines_before zero h fs x e i d l = absurd (omega (arith, l))
  headers_from-lines_before (suc fuel) h [] x e i d l = (fuel, refl)
  headers_from-lines_before (suc fuel) h (f ∷ fs) x e i d l =
      let (fuel', p) =
        headers_from-lines_before fuel (add f.key (field_value f) h) fs x e i.1 d
          (omega (arith, l)) in
      (
        fuel',
        field_next add fuel h f (lines_before fs x) e i.0 (StartsDark-lines_before fs x i.1 d) ∙ p,
      )

  parse_headers-lines_before :
      (h : H) (fs : List HeaderField) (x : Bytes) (e : ReadError)
      → All IsField fs
      → StartsDark x
      → (fuel' : ℕ) × (parse_headers add (reader (lines_before fs x) e) h
          ≡ headers_from add
              (suc fuel')
              (add_fields add fs h)
              (read_bytes (reader x e)).0
              (read_bytes (reader x e)).1)
  unfolding parse_headers
  parse_headers-lines_before h fs x e i d =
      headers_from-lines_before (suc (length (lines_before fs x))) h fs x e i d
        (omega (arith, length-lines_before fs x))

-- The loop over the value reads the next line, of which there is nothing.
read_field-truncated :
    (f : HeaderField) (e : ReadError)
    → IsField f
    → f.after ≡ []
    → read_field (reader [] e) (field_line f) ≡ field_panic
unfolding read_field read_value value_from read_bytes
read_field-truncated f e h a =
    let key =
      split_key-key f.key (f.before ++ (f.first ++ (words f.later ++ (f.after ++ crlf))))
        h.key_tokens h.key_starts in
    let blank =
      split_blanks-dark f.before (f.first ++ (words f.later ++ (f.after ++ crlf))) h.before_blank
        (StartsDark-value f (10 ∷ []) h) in
    let scan =
      scan_field_value f h
      ∙ ap (λ b. behind_all (field_value f) (ending b)) a
      ∙ behind_all-line_end (field_value f) [] 0 crlf in
    rw (key, read_field) (rw (blank, read_value) (rw (scan, value_from) refl))

-- A head of one or more lines, each of a field that the parser reads, makes the parser panic if the
-- bytes end behind its last line, where the empty line is missing, and no whitespace precedes the
-- break of that line; with whatever error the reader ends. A name is
-- of token characters, a value's words are of visible ASCII characters with whitespace between them,
-- and a word behind whitespace has more than one byte unless the line ends with it.
pub parse_headers-truncated :
    {H : Type 0} (add : Bytes → Bytes → H → H) (fs : List HeaderField) (f : HeaderField)
    (e : ReadError) (h : H)
    → All IsField fs
    → IsField f
    → f.after ≡ []
    → parse_headers add (reader (lines_before fs (field_line f)) e) h ≡ panicked
unfolding headers_from
parse_headers-truncated add fs f e h i j a =
    let dark : StartsDark (field_line f) = StartsDark-key f.key _ j.key_tokens j.key_starts in
    let (fuel, p) = parse_headers-lines_before add h fs (field_line f) e i dark in
    let line : read_bytes (reader (field_line f) e) ≡ (whole (field_line f), reader [] e) =
      ap (λ x. read_bytes (reader x e)) (sym (append-nil (field_line f)))
      ∙ read_bytes-field_line f [] e j in
    p
    ∙ from_line add (suc fuel) (add_fields add fs h) (whole (field_line f)) (reader [] e) _ line
    ∙ rw (short_line-field_line f j, headers_from) (rw (read_field-truncated f e j a) refl)

blank_not_return : (c : ℕ) → IsBlank c → (c == 13) ≡ false
unfolding is_whitespace
blank_not_return c h = ground arith

at_line_end-blank : (s : Scanned) (c : ℕ) (x : Bytes) → IsBlank c → at_line_end s c x ≡ stop illegal
unfolding at_line_end
at_line_end-blank s c [] h = rw (blank_not_return c h) refl
at_line_end-blank s c (d ∷ x) h = rw (blank_not_return c h) refl

-- At its head the loop refuses whitespace.
scan_blank_head : (n c : ℕ) (x : Bytes) → IsBlank c → scan_value (head n) (c ∷ x) ≡ illegal
scan_blank_head n c x h =
    scan_value-stop (head n) c x illegal
      (unfold next_place at_head in rw (blank_not_v_char c h) (at_line_end-blank _ c x h))

-- A name, a first word, whitespace, a word of the byte `letter`, and whitespace behind it.
pub record ShortWord : Type 0 where
  pub key : Bytes
  pub before : Bytes
  pub start : ℕ
  pub first : Bytes
  pub blank : ℕ
  pub gap : Bytes
  pub letter : ℕ
  pub next : ℕ
  pub more : Bytes

abbrev pub short_value : ShortWord → Bytes
short_value w = w.start ∷ (w.first ++ (w.blank ∷ (w.gap ++ (w.letter ∷ w.next ∷ w.more))))

abbrev pub short_word_line : ShortWord → Bytes
short_word_line w = w.key ++ (58 ∷ (w.before ++ short_value w))

pub record IsShortWord (w : ShortWord) : Type 0 where
  pub key_tokens : All IsToken w.key
  pub key_starts : IsLong (0 ∷ w.key)
  pub before_blank : All IsBlank w.before
  pub first_word : All IsVChar (w.start ∷ w.first)
  pub gap_blank : All IsBlank (w.blank ∷ w.gap)
  pub letter_v_char : IsVChar w.letter
  pub next_blank : IsBlank w.next
  pub more_in_line : All NotNewline w.more

scan_value-short :
    (w : ShortWord) (x : Bytes) → IsShortWord w → scan_value (head 0) (short_value w ++ x) ≡ illegal
scan_value-short w x h =
    let tail = w.letter ∷ w.next ∷ (w.more ++ x) in
    let split : short_value w ++ x ≡ w.start ∷ (w.first ++ (w.blank ∷ (w.gap ++ tail))) =
      simp append_assoc in
    let end : scan_value (blanks (length w.gap + 1)) tail ≡ illegal =
      scan_later (length w.gap + 1) w.letter (w.next ∷ (w.more ++ x)) h.letter_v_char
      ∙ ap (behind w.letter) (scan_blank_head 0 w.next (w.more ++ x) h.next_blank) in
    let blank : scan_value behind_v_char (w.blank ∷ (w.gap ++ tail)) ≡ illegal =
      scan_blank w.blank (w.gap ++ tail) h.gap_blank.0
      ∙ ap (behind w.blank) (
          scan_gap 1 w.gap tail h.gap_blank.1
          ∙ ap (behind_all w.gap) end
          ∙ behind_all-illegal w.gap) in
    ap (scan_value (head 0)) split
    ∙ scan_first 0 w.start (w.first ++ (w.blank ∷ (w.gap ++ tail))) h.first_word.0
    ∙ ap (behind w.start) (
        scan_word w.first (w.blank ∷ (w.gap ++ tail)) h.first_word.1
        ∙ ap (behind_all w.first) blank
        ∙ behind_all-illegal w.first)

short_word_line-NotNewline : (w : ShortWord) → IsShortWord w → All NotNewline (short_word_line w)
short_word_line-NotNewline w h =
    All-append NotNewline w.key _ (All-map token_not_newline w.key h.key_tokens) (
      refl,
      All-append NotNewline w.before _ (All-map blank_not_newline w.before h.before_blank) (
          All-append NotNewline (w.start ∷ w.first) _
            (All-map v_char_not_newline (w.start ∷ w.first) h.first_word)
            (All-append NotNewline (w.blank ∷ w.gap) _
              (All-map blank_not_newline (w.blank ∷ w.gap) h.gap_blank)
              (
                v_char_not_newline w.letter h.letter_v_char,
                (blank_not_newline w.next h.next_blank, h.more_in_line),
              ))),
    )

read_field-short :
    (r : Reader) (w : ShortWord)
    → IsShortWord w
    → read_field r (short_word_line w ++ 10 ∷ []) ≡ refused err_illegal_character_in_header_value r
unfolding read_field read_value value_from
read_field-short r w h =
    let split : short_word_line w ++ 10 ∷ []
        ≡ w.key ++ (58 ∷ (w.before ++ (short_value w ++ 10 ∷ []))) =
      simp append_assoc in
    let key =
      split_key-key w.key (w.before ++ (short_value w ++ 10 ∷ [])) h.key_tokens h.key_starts in
    let dark : StartsDark (short_value w ++ 10 ∷ []) =
      starts_dark w.start _ (v_char_not_blank w.start h.first_word.0) in
    let blank = split_blanks-dark w.before (short_value w ++ 10 ∷ []) h.before_blank dark in
    ap (read_field r) split
    ∙ rw (key, read_field)
        (rw (blank, read_value) (rw (scan_value-short w (10 ∷ []) h, value_from) refl))

short_line-short : (w : ShortWord) → short_line (short_word_line w ++ 10 ∷ []) none ≡ none
short_line-short w =
    let value : 3 ≤ length (short_value w) = omega (
      arith,
      length-append w.first (w.blank ∷ (w.gap ++ (w.letter ∷ w.next ∷ w.more))),
      length-append w.gap (w.letter ∷ w.next ∷ w.more),
    ) in
    let line =
      length-suffix w.key ((58 ∷ w.before) ++ short_value w) 3
        (length-suffix (58 ∷ w.before) (short_value w) 3 value) in
    short_line-long _ (omega (arith, length-append (short_word_line w) (10 ∷ []), line))

-- Behind any number of fields that the parser reads, a value whose second word is of one byte and
-- followed by whitespace is refused as an illegal character, and the reader is left behind its line;
-- the name is of token characters and the two words of visible ASCII characters.
pub parse_headers-short_word :
    {H : Type 0} (add : Bytes → Bytes → H → H) (fs : List HeaderField) (w : ShortWord)
    (rest : Bytes) (e : ReadError) (h : H)
    → All IsField fs
    → IsShortWord w
    → parse_headers add (reader (lines_before fs (short_word_line w ++ 10 ∷ rest)) e) h
      ≡ returned
          (add_fields add fs h)
          (reader rest e)
          (some err_illegal_character_in_header_value)
          true
unfolding headers_from
parse_headers-short_word add fs w rest e h i j =
    let dark : StartsDark (short_word_line w ++ 10 ∷ rest) =
      rw (append_assoc w.key (58 ∷ (w.before ++ short_value w)) (10 ∷ rest))
        (StartsDark-key w.key _ j.key_tokens j.key_starts) in
    let (fuel, p) = parse_headers-lines_before add h fs (short_word_line w ++ 10 ∷ rest) e i dark in
    let line : read_bytes (reader (short_word_line w ++ 10 ∷ rest) e)
        ≡ (whole (short_word_line w ++ 10 ∷ []), reader rest e) =
      unfold read_bytes in
      rw (until_newline-append (short_word_line w) rest (short_word_line-NotNewline w j)) refl in
    p
    ∙ from_line add (suc fuel) (add_fields add fs h) (whole (short_word_line w ++ 10 ∷ []))
        (reader rest e) _ line
    ∙ rw (short_line-short w, headers_from) (rw (read_field-short (reader rest e) w j) refl)
