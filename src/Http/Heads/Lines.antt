-- ===== src/Http/Heads/Lines.antt =====
-- The parser on the lines of well-formed fields.
use jotpot_server.Base.{
  ℕ, suc, ◌≤◌, ◌≡◌, refl, sym, ap, ◌∙◌, inl, inr, false, List, [], ◌∷◌, ◌++◌, ◌==◌, arith, Option,
  some, none, Bytes, All, length, append_assoc, length-append, All-append, Bool-cases,
}
use mathlib.Core.List.{append-nil}
use jotpot_server.Http.Chars.{is_whitespace}
use jotpot_server.Http.Heads.{
  Reader, ReadError, Line, read_bytes, blank_end, line_end, head, scan_value, split_key, key_end,
  split_blanks, until_newline, without_last, Value, value, value_from, next_line, short_line,
}
use jotpot_server.Http.Heads.Scan.{
  IsLong, IsBlank, IsToken, IsVChar, crlf, v_char_not_blank, token_not_newline, v_char_not_newline,
  blank_not_newline, scan_key-token, split_blanks-blank, NotNewline, until_newline-append,
  without_last-append,
}
use jotpot_server.Http.Heads.Fields.{HeaderField, Later, IsField, AreLater, words, field_line}

pub All-map : {P Q : ℕ → Type 0} → ((b : ℕ) → P b → Q b) → (v : Bytes) → All P v → All Q v
All-map f [] h = tt
All-map f (b ∷ v) h = (f b h.0, All-map f v h.1)

pub NotNewline-words :
    (ls : List Later) (after : Bytes) → AreLater ls after → All NotNewline (words ls)
NotNewline-words [] after h = tt
NotNewline-words (l ∷ ls) after h =
    All-append NotNewline l.gap (l.word ++ words ls) (All-map blank_not_newline l.gap h.0.gap_blank)
      (All-append NotNewline l.word (words ls) (All-map v_char_not_newline l.word h.0.word_v_chars)
        (NotNewline-words ls after h.1))

-- A line up to its newline.
abbrev line_body : HeaderField → Bytes
line_body f = f.key ++ (58 ∷ (f.before ++ (f.first ++ (words f.later ++ (f.after ++ (13 ∷ []))))))

line_body-NotNewline : (f : HeaderField) → IsField f → All NotNewline (line_body f)
line_body-NotNewline f h =
    All-append NotNewline f.key _ (All-map token_not_newline f.key h.key_tokens) (
      refl,
      All-append NotNewline f.before _ (All-map blank_not_newline f.before h.before_blank) (
          All-append NotNewline f.first _ (All-map v_char_not_newline f.first h.first_word) (
            All-append NotNewline (words f.later) _ (NotNewline-words f.later f.after h.later_words)
              (All-append NotNewline f.after _ (All-map blank_not_newline f.after h.after_blank)
                (refl, tt)))),
    )

abbrev pub reader : Bytes → ReadError → Reader
reader bytes ends = record { bytes = bytes; ends = ends }

abbrev pub whole : Bytes → Line
whole text = record { text = text; err = none }

line_split : (f : HeaderField) (x : Bytes) → line_body f ++ 10 ∷ x ≡ field_line f ++ x
line_split f x = simp append_assoc

-- A line with a field is read as a whole.
pub read_bytes-field_line :
    (f : HeaderField) (rest : Bytes) (e : ReadError)
    → IsField f
    → read_bytes (reader (field_line f ++ rest) e) ≡ (whole (field_line f), reader rest e)
unfolding read_bytes
read_bytes-field_line f rest e h = rw (← line_split f rest) (
    rw (until_newline-append (line_body f) rest (line_body-NotNewline f h)) (
      let k : line_body f ++ 10 ∷ [] ≡ field_line f = line_split f [] ∙ append-nil (field_line f) in
      rw k refl))

pub short_line-long : (v : Bytes) → 3 ≤ length v → short_line v none ≡ none
unfolding short_line
short_line-long (a ∷ b ∷ c ∷ v) h = refl
short_line-long [] h = absurd (omega (arith, h))
short_line-long (a ∷ []) h = absurd (omega (arith, h))
short_line-long (a ∷ b ∷ []) h = absurd (omega (arith, h))

pub length-suffix : (v w : Bytes) (n : ℕ) → n ≤ length w → n ≤ length (v ++ w)
length-suffix v w n h = omega (arith, length-append v w)

pub short_line-field_line : (f : HeaderField) → IsField f → short_line (field_line f) none ≡ none
short_line-field_line f h =
    let tail = length-suffix f.before _ 2 (
      length-suffix f.first _ 2
        (length-suffix (words f.later) _ 2 (length-suffix f.after crlf 2 (omega arith)))) in
    short_line-long (field_line f) (length-suffix f.key _ 3 (omega (arith, tail)))

pub split_key-key :
    (key x : Bytes) → All IsToken key → IsLong (0 ∷ key) → split_key (key ++ 58 ∷ x) ≡ key_end key x
unfolding split_key
split_key-key [] x h l = absurd (omega (arith, l))
split_key-key (b ∷ key) x h l = rw (h.0) (rw (scan_key-token key x h.1) refl)

-- The bytes begin with one that is not whitespace.
pub data StartsDark : Bytes → Type 0 where
  starts_dark : (c : ℕ) (v : Bytes) → is_whitespace c ≡ false → StartsDark (c ∷ v)

pub StartsDark-value :
    (f : HeaderField) (x : Bytes)
    → IsField f
    → StartsDark (f.first ++ (words f.later ++ (f.after ++ (13 ∷ x))))
StartsDark-value f x h = elim h.has_words [
  | inl l ↦ StartsDark-word f.first _ h.first_word l
  | inr e ↦ rw (e.0, e.1, e.2) (starts_dark 13 x (unfold is_whitespace in refl))
]
  where
    StartsDark-word : (v w : Bytes) → All IsVChar v → IsLong (0 ∷ v) → StartsDark (v ++ w)
    StartsDark-word [] w k l = absurd (omega (arith, l))
    StartsDark-word (b ∷ v) w k l = starts_dark b (v ++ w) (v_char_not_blank b k.0)

pub split_blanks-dark :
    (bs x : Bytes) → All IsBlank bs → StartsDark x → split_blanks (bs ++ x) ≡ some (bs, x)
split_blanks-dark bs _ h (starts_dark c v k) = split_blanks-blank bs c v h k

-- A line that begins with a byte.
pub read_bytes-cons :
    (c : ℕ) (v : Bytes) (e : ReadError)
    → (t : Bytes) × ((read_bytes (reader (c ∷ v) e)).0.text ≡ c ∷ t)
unfolding read_bytes
read_bytes-cons c v e = elim (Bool-cases (c == 10)) [
  | inl p ↦ ([], rw p refl)
  | inr p ↦ ((until_newline v).0, rw p refl)
]

-- The line behind a field is the next one, whichever loop has read it.
pub record ReadsField (r : Reader) (v : Bytes) (x : Value) : Type 0 where
  pub next : Option Line
  pub left : Reader
  pub is_value : x ≡ value v next left
  pub next_is : next_line next left ≡ read_bytes r

pub value_from-line_end :
    (fuel : ℕ) (r : Reader) (v x : Bytes) (c : ℕ) (t : Bytes)
    → scan_value (head 0) x ≡ line_end v 0 crlf
    → (read_bytes r).0.text ≡ c ∷ t
    → is_whitespace c ≡ false
    → ReadsField r v (value_from (suc fuel) r none [] 0 x)
unfolding value_from
value_from-line_end fuel r v x c t s e k = record {
  next = some (read_bytes r).0;
  left = (read_bytes r).1;
  is_value =
      let all : without_last 0 v ≡ v =
        ap (without_last 0) (sym (append-nil v)) ∙ without_last-append v [] in
      rw (s, value_from) (rw e (rw k (rw all refl)));
  next_is = unfold next_line in refl;
}

pub value_from-blank_end :
    (fuel : ℕ) (r : Reader) (v after x : Bytes)
    → scan_value (head 0) x ≡ blank_end (v ++ after) (length after)
    → ReadsField r v (value_from (suc fuel) r none [] 0 x)
unfolding value_from
value_from-blank_end fuel r v after x s = record {
  next = none;
  left = r;
  is_value = rw (s, value_from) (rw (without_last-append v after) refl);
  next_is = unfold next_line in refl;
}
