-- ===== src/Http/Heads/Scan.antt =====
-- What the scanners of a field's line do with the parts of a well-formed line.
use jotpot_server.Base.{
  ℕ, suc, ◌+◌, ◌-◌, ◌≤◌, ◌≡◌, refl, ap, ◌∙◌, true, false, [], ◌∷◌, ◌++◌, ◌==◌, arith, some, Bytes,
  All, length, length-append, take-length-append,
}
use jotpot_server.Http.Chars.{is_whitespace, is_token_char, is_v_char}
use jotpot_server.Http.Heads.{
  Scanned, illegal, blank_end, line_end, Place, head, behind_v_char, blanks, behind, scan_value,
  next_place, at_head, scan_key, key_end, split_blanks, until_newline, go, stop, without_last,
}

-- The bytes are two at least.
abbrev pub IsLong : Bytes → Type 0
IsLong w = 2 ≤ length w

abbrev pub IsBlank : ℕ → Type 0
IsBlank b = is_whitespace b ≡ true

abbrev pub IsToken : ℕ → Type 0
IsToken b = is_token_char b ≡ true

abbrev pub IsVChar : ℕ → Type 0
IsVChar b = is_v_char b ≡ true

abbrev pub crlf : Bytes
crlf = 13 ∷ 10 ∷ []

-- A part of the value before what is scanned behind it.
abbrev pub behind_all : Bytes → Scanned → Scanned
behind_all [] s = s
behind_all (b ∷ v) s = behind b (behind_all v s)

pub behind_all-line_end :
    (v w : Bytes) (n : ℕ) (rest : Bytes)
    → behind_all v (line_end w n rest) ≡ line_end (v ++ w) n rest
behind_all-line_end [] w n rest = refl
behind_all-line_end (b ∷ v) w n rest = ap (behind b) (behind_all-line_end v w n rest)

pub behind_all-blank_end :
    (v w : Bytes) (n : ℕ) → behind_all v (blank_end w n) ≡ blank_end (v ++ w) n
behind_all-blank_end [] w n = refl
behind_all-blank_end (b ∷ v) w n = ap (behind b) (behind_all-blank_end v w n)

pub behind_all-illegal : (v : Bytes) → behind_all v illegal ≡ illegal
behind_all-illegal [] = refl
behind_all-illegal (b ∷ v) = ap (behind b) (behind_all-illegal v)

pub behind_all-append :
    (v w : Bytes) (s : Scanned) → behind_all (v ++ w) s ≡ behind_all v (behind_all w s)
behind_all-append [] w s = refl
behind_all-append (b ∷ v) w s = ap (behind b) (behind_all-append v w s)

pub v_char_not_blank : (b : ℕ) → IsVChar b → is_whitespace b ≡ false
unfolding is_v_char is_whitespace
v_char_not_blank b h = ground arith

pub token_not_blank : (b : ℕ) → IsToken b → is_whitespace b ≡ false
unfolding is_token_char is_whitespace
token_not_blank b h = ground arith

pub blank_not_v_char : (b : ℕ) → IsBlank b → is_v_char b ≡ false
unfolding is_v_char is_whitespace
blank_not_v_char b h = ground arith

pub token_not_newline : (b : ℕ) → IsToken b → (b == 10) ≡ false
unfolding is_token_char
token_not_newline b h = ground arith

pub v_char_not_newline : (b : ℕ) → IsVChar b → (b == 10) ≡ false
unfolding is_v_char
v_char_not_newline b h = ground arith

pub blank_not_newline : (b : ℕ) → IsBlank b → (b == 10) ≡ false
unfolding is_whitespace
blank_not_newline b h = ground arith

scan_value-go :
    (p p' : Place) (b : ℕ) (rest : Bytes)
    → next_place p b rest ≡ go p'
    → scan_value p (b ∷ rest) ≡ behind b (scan_value p' rest)
unfolding scan_value
scan_value-go p p' b rest e = rw (e, scan_value)

pub scan_value-stop :
    (p : Place) (b : ℕ) (rest : Bytes) (s : Scanned)
    → next_place p b rest ≡ stop s
    → scan_value p (b ∷ rest) ≡ s
unfolding scan_value
scan_value-stop p b rest s e = rw (e, scan_value)

-- A byte of a word leads behind it, from the loop's head and from behind another one.
pub scan_first :
    (n b : ℕ) (rest : Bytes)
    → IsVChar b
    → scan_value (head n) (b ∷ rest) ≡ behind b (scan_value behind_v_char rest)
scan_first n b rest h =
    scan_value-go (head n) behind_v_char b rest (unfold next_place at_head in rw h refl)

next_byte :
    (b : ℕ) (rest : Bytes)
    → IsVChar b
    → scan_value behind_v_char (b ∷ rest) ≡ behind b (scan_value behind_v_char rest)
next_byte b rest h =
    scan_value-go behind_v_char behind_v_char b rest
      (unfold next_place at_head in rw (v_char_not_blank b h) (rw h refl))

pub scan_word :
    (w rest : Bytes)
    → All IsVChar w
    → scan_value behind_v_char (w ++ rest) ≡ behind_all w (scan_value behind_v_char rest)
scan_word [] rest h = refl
scan_word (b ∷ w) rest h = next_byte b (w ++ rest) h.0 ∙ ap (behind b) (scan_word w rest h.1)

-- Whitespace behind a word is counted.
pub scan_blank :
    (b : ℕ) (rest : Bytes)
    → IsBlank b
    → scan_value behind_v_char (b ∷ rest) ≡ behind b (scan_value (blanks 1) rest)
scan_blank b rest h = scan_value-go behind_v_char (blanks 1) b rest (unfold next_place in rw h refl)

pub scan_gap :
    (n : ℕ) (g rest : Bytes)
    → All IsBlank g
    → scan_value (blanks n) (g ++ rest) ≡ behind_all g (scan_value (blanks (length g + n)) rest)
scan_gap n [] rest h = let e : 0 + n ≡ n = omega arith in rw e refl
scan_gap n (b ∷ g) rest h =
    let e : suc (length g) + n ≡ length g + suc n = omega arith in
    rw e (
      scan_value-go (blanks n) (blanks (suc n)) b (g ++ rest) (unfold next_place in rw h.0 refl)
      ∙ ap (behind b) (scan_gap (suc n) g rest h.1))

-- The first byte of a later word leads to the loop's head.
pub scan_later :
    (n b : ℕ) (rest : Bytes)
    → IsVChar b
    → scan_value (blanks n) (b ∷ rest) ≡ behind b (scan_value (head 0) rest)
scan_later n b rest h =
    scan_value-go (blanks n) (head 0) b rest
      (unfold next_place in rw (v_char_not_blank b h) (rw h refl))

pub scan_key-token :
    (key rest : Bytes) → All IsToken key → scan_key (key ++ 58 ∷ rest) ≡ key_end key rest
unfolding scan_key is_token_char
scan_key-token [] rest h = refl
scan_key-token (b ∷ key) rest h = rw (h.0, scan_key-token key rest h.1) refl

pub split_blanks-blank :
    (bs : Bytes) (c : ℕ) (rest : Bytes)
    → All IsBlank bs
    → is_whitespace c ≡ false
    → split_blanks (bs ++ c ∷ rest) ≡ some (bs, c ∷ rest)
unfolding split_blanks
split_blanks-blank [] c rest h k = rw k refl
split_blanks-blank (b ∷ bs) c rest h k = rw (h.0, split_blanks-blank bs c rest h.1 k) refl

abbrev pub NotNewline : ℕ → Type 0
NotNewline b = (b == 10) ≡ false

pub until_newline-append :
    (l rest : Bytes)
    → All NotNewline l
    → until_newline (l ++ 10 ∷ rest) ≡ (l ++ 10 ∷ [], rest, true)
until_newline-append [] rest h = refl
until_newline-append (b ∷ l) rest h = rw (until_newline-append l rest h.1, h.0) refl

pub without_last-append : (v w : Bytes) → without_last (length w) (v ++ w) ≡ v
without_last-append v w =
    let e : length (v ++ w) - length w ≡ length v = omega (arith, length-append v w) in
    rw e (take-length-append v w)
