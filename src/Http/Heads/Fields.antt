-- ===== src/Http/Heads/Fields.antt =====
-- Fields on a line of their own, and how the parser reads a list of them.
use jotpot_server.Base.{
  ℕ, suc, ◌+◌, ◌≡◌, refl, sym, ap, ◌∙◌, ◌⊎◌, inl, inr, List, [], ◌∷◌, ◌++◌, arith, Bytes, All,
  length, append_assoc,
}
use mathlib.Core.List.{append-nil}
use jotpot_server.Http.Chars.{is_whitespace, is_v_char}
use jotpot_server.Http.Heads.{
  Scanned, blank_end, line_end, head, behind_v_char, blanks, behind, scan_value, next_place,
  at_head, at_line_end,
}
use jotpot_server.Http.Heads.Scan.{
  IsLong, IsBlank, IsToken, IsVChar, crlf, behind_all, behind_all-blank_end, behind_all-append,
  scan_first, scan_word, scan_blank, scan_gap, scan_later, scan_value-stop,
}

-- A word behind whitespace.
pub record Later : Type 0 where
  pub gap : Bytes
  pub word : Bytes

-- A name, the whitespace before the value, the value's words, and the whitespace behind them.
pub record HeaderField : Type 0 where
  pub key : Bytes
  pub before : Bytes
  pub first : Bytes
  pub later : List Later
  pub after : Bytes

abbrev pub words : List Later → Bytes
words [] = []
words (l ∷ ls) = l.gap ++ (l.word ++ words ls)

abbrev pub field_value : HeaderField → Bytes
field_value f = f.first ++ words f.later

abbrev pub field_line : HeaderField → Bytes
field_line f = f.key ++ (58 ∷ (f.before ++ (f.first ++ (words f.later ++ (f.after ++ crlf)))))

-- A later word stands behind whitespace, and is longer than one byte unless the line ends there.
pub record IsLater (l : Later) (ls : List Later) (after : Bytes) : Type 0 where
  pub gap_blank : All IsBlank l.gap
  pub has_gap : IsLong (0 ∷ l.gap)
  pub word_v_chars : All IsVChar l.word
  pub has_word : IsLong (0 ∷ l.word)
  pub long : IsLong l.word ⊎ ((ls ≡ []) × (after ≡ []))

abbrev pub AreLater : List Later → Bytes → Type 0
AreLater [] after = Unit
AreLater (l ∷ ls) after = IsLater l ls after × AreLater ls after

-- A value without words has all whitespace before it.
abbrev pub HasWords : HeaderField → Type 0
HasWords f = (IsLong (0 ∷ f.first)) ⊎ ((f.first ≡ []) × (f.later ≡ []) × (f.after ≡ []))

pub record IsField (f : HeaderField) : Type 0 where
  pub key_tokens : All IsToken f.key
  pub key_starts : IsLong (0 ∷ f.key)
  pub before_blank : All IsBlank f.before
  pub first_word : All IsVChar f.first
  pub later_words : AreLater f.later f.after
  pub after_blank : All IsBlank f.after
  pub has_words : HasWords f

-- How the scan ends behind the words.
abbrev pub ending : Bytes → Scanned
ending [] = line_end [] 0 crlf
ending (b ∷ after) = blank_end (b ∷ after) (suc (length after))

scan_end :
    (n : ℕ) (rest : Bytes) → scan_value (head n) (13 ∷ 10 ∷ rest) ≡ line_end [] n (13 ∷ 10 ∷ rest)
scan_end n rest =
    scan_value-stop (head n) 13 (10 ∷ rest) (line_end [] n (13 ∷ 10 ∷ rest))
      (unfold next_place at_head at_line_end is_v_char in refl)

scan_word_end : scan_value behind_v_char crlf ≡ line_end [] 0 crlf
scan_word_end =
    scan_value-stop behind_v_char 13 (10 ∷ []) (line_end [] 0 crlf)
      (unfold next_place at_head at_line_end is_v_char is_whitespace in refl)

scan_blank_end : (n : ℕ) → scan_value (blanks n) crlf ≡ blank_end [] n
scan_blank_end n =
    scan_value-stop (blanks n) 13 (10 ∷ []) (blank_end [] n)
      (unfold next_place at_head at_line_end is_v_char is_whitespace in refl)

scan_after :
    (after : Bytes) → All IsBlank after → scan_value behind_v_char (after ++ crlf) ≡ ending after
scan_after [] h = scan_word_end
scan_after (b ∷ after) h =
    let n : length after + 1 ≡ suc (length after) = omega arith in
    let end : scan_value (blanks (length after + 1)) crlf ≡ blank_end [] (suc (length after)) =
      rw n (scan_blank_end (suc (length after))) in
    let all : behind_all after (blank_end [] (suc (length after)))
        ≡ blank_end after (suc (length after)) =
      behind_all-blank_end after [] (suc (length after))
      ∙ ap (λ v. blank_end v (suc (length after))) (append-nil after) in
    scan_blank b (after ++ crlf) h.0
    ∙ ap (behind b) (scan_gap 1 after crlf h.1 ∙ ap (behind_all after) end ∙ all)

scan_behind_gap :
    (g x : Bytes) (t : Scanned)
    → All IsBlank g
    → IsLong (0 ∷ g)
    → ((n : ℕ) → scan_value (blanks n) x ≡ t)
    → scan_value behind_v_char (g ++ x) ≡ behind_all g t
scan_behind_gap [] x t h l k = absurd (omega (arith, l))
scan_behind_gap (b ∷ g) x t h l k =
    scan_blank b (g ++ x) h.0
    ∙ ap (behind b) (scan_gap 1 g x h.1 ∙ ap (behind_all g) (k (length g + 1)))

-- A later word, when what follows it is scanned alike from behind the word and, if the word is
-- short, from the loop's head.
scan_later_word :
    (n : ℕ) (w x : Bytes) (t : Scanned)
    → All IsVChar w
    → IsLong (0 ∷ w)
    → scan_value behind_v_char x ≡ t
    → IsLong w ⊎ (scan_value (head 0) x ≡ t)
    → scan_value (blanks n) (w ++ x) ≡ behind_all w t
scan_later_word n [] x t h l k short = absurd (omega (arith, l))
scan_later_word n (b ∷ []) x t h l k (inl long) = absurd (omega (arith, long))
scan_later_word n (b ∷ []) x t h l k (inr e) = scan_later n b x h.0 ∙ ap (behind b) e
scan_later_word n (b ∷ c ∷ w) x t h l k short =
    scan_later n b ((c ∷ w) ++ x) h.0
    ∙ ap (behind b)
        (scan_first 0 c (w ++ x) h.1.0 ∙ ap (behind c) (scan_word w x h.1.1 ∙ ap (behind_all w) k))

scan_end_here :
    (ls : List Later) (after : Bytes)
    → (ls ≡ []) × (after ≡ [])
    → scan_value (head 0) (words ls ++ (after ++ crlf)) ≡ behind_all (words ls) (ending after)
scan_end_here ls after (p, q) = rw (p, q) (scan_end 0 [])

-- From behind a word, the scan goes over the rest of the words.
scan_words :
    (ls : List Later) (after : Bytes)
    → AreLater ls after
    → All IsBlank after
    → scan_value behind_v_char (words ls ++ (after ++ crlf)) ≡ behind_all (words ls) (ending after)
scan_words [] after h k = scan_after after k
scan_words (l ∷ ls) after h k =
    let rest = words ls ++ (after ++ crlf) in
    let t = behind_all (words ls) (ending after) in
    let short : IsLong l.word ⊎ (scan_value (head 0) rest ≡ t) = elim h.0.long [
      | inl long ↦ inl long
      | inr e ↦ inr (scan_end_here ls after e)
    ] in
    let word : (n : ℕ) → scan_value (blanks n) (l.word ++ rest) ≡ behind_all l.word t = λ n.
      scan_later_word n l.word rest t h.0.word_v_chars h.0.has_word (scan_words ls after h.1 k)
        short in
    rw (append_assoc l.gap (l.word ++ words ls) (after ++ crlf)) (
      rw (append_assoc l.word (words ls) (after ++ crlf)) (
        scan_behind_gap l.gap (l.word ++ rest) (behind_all l.word t) h.0.gap_blank h.0.has_gap word
        ∙ sym (
            behind_all-append l.gap (l.word ++ words ls) (ending after)
            ∙ ap (behind_all l.gap) (behind_all-append l.word (words ls) (ending after)))))

-- The whole value from its first byte.
scan_field :
    (first : Bytes) (ls : List Later) (after : Bytes)
    → All IsVChar first
    → IsLong (0 ∷ first)
    → AreLater ls after
    → All IsBlank after
    → scan_value (head 0) (first ++ (words ls ++ (after ++ crlf)))
      ≡ behind_all (first ++ words ls) (ending after)
scan_field [] ls after h l k m = absurd (omega (arith, l))
scan_field (b ∷ first) ls after h l k m =
    scan_first 0 b (first ++ (words ls ++ (after ++ crlf))) h.0
    ∙ ap (behind b) (
        scan_word first (words ls ++ (after ++ crlf)) h.1
        ∙ ap (behind_all first) (scan_words ls after k m)
        ∙ sym (behind_all-append first (words ls) (ending after)))

pub scan_field_value :
    (f : HeaderField)
    → IsField f
    → scan_value (head 0) (f.first ++ (words f.later ++ (f.after ++ crlf)))
      ≡ behind_all (field_value f) (ending f.after)
scan_field_value f h = elim h.has_words [
  | inl l ↦ scan_field f.first f.later f.after h.first_word l h.later_words h.after_blank
  | inr e ↦ rw (e.0, e.1, e.2) (scan_end 0 [])
]
