-- ===== src/Http/Chars/Whitespace.antt =====
-- RemoveWhitespacePrefix, RemoveWhitespacePostfix, RemoveWhitespace and ConsumeWhitespace of
-- http/httpchars/characters.go. An index that moves up through a string is the rest of the string;
-- the one that moves down from the end is kept, as the number of bytes up to it.
use jotpot_server.Base.{
  ℕ, zero, suc, ◌≤◌, ◌<◌, ◌≡◌, refl, sym, ap, ◌∙◌, arith, inl, inr, true, false, Bool-cases, [],
  ◌∷◌, ◌++◌, all, if◌then◌else◌, Bytes, length, take, drop, take-append-drop,
}
use jotpot_server.Http.Chars.{is_whitespace}

unfoldable pub remove_whitespace_prefix : Bytes → Bytes
remove_whitespace_prefix [] = []
remove_whitespace_prefix (b ∷ v) = if is_whitespace b then remove_whitespace_prefix v else b ∷ v

unfoldable pub consume_whitespace : Bytes → Bytes
consume_whitespace [] = []
consume_whitespace (b ∷ s) = if is_whitespace b then consume_whitespace s else b ∷ s

-- v[n], for an index in range.
abbrev pub byte_at : Bytes → ℕ → ℕ
byte_at [] n = 0
byte_at (b ∷ v) zero = b
byte_at (b ∷ v) (suc n) = byte_at v n

-- The loop of `RemoveWhitespacePostfix`, at i = n - 1; what it returns is i + 1 at its end.
unfoldable pub postfix_end : Bytes → ℕ → ℕ
postfix_end v zero = 0
postfix_end v (suc i) = if is_whitespace (byte_at v i) then postfix_end v i else suc i

unfoldable pub remove_whitespace_postfix : Bytes → Bytes
remove_whitespace_postfix v = take (postfix_end v (length v)) v

unfoldable pub remove_whitespace : Bytes → Bytes
remove_whitespace v = remove_whitespace_postfix (remove_whitespace_prefix v)

-- The text does not begin, and does not end, with whitespace.
abbrev pub StartsDark : Bytes → Type 0
StartsDark [] = Unit
StartsDark (b ∷ v) = is_whitespace b ≡ false

abbrev pub EndsDark : Bytes → Type 0
EndsDark [] = Unit
EndsDark (b ∷ []) = is_whitespace b ≡ false
EndsDark (b ∷ c ∷ v) = EndsDark (c ∷ v)

pub record IsTrimmed (v w : Bytes) : Type 0 where
  pub before : Bytes
  pub after : Bytes
  pub split : v ≡ before ++ (w ++ after)
  pub before_blank : all is_whitespace before ≡ true
  pub after_blank : all is_whitespace after ≡ true
  pub starts : StartsDark w
  pub ends : EndsDark w

pub remove_whitespace_prefix_lem :
    (v : Bytes)
    → (before : Bytes) × (v ≡ before ++ remove_whitespace_prefix v)
      × (all is_whitespace before ≡ true)
      × StartsDark (remove_whitespace_prefix v)
unfolding remove_whitespace_prefix
remove_whitespace_prefix_lem [] = ([], refl, refl, tt)
remove_whitespace_prefix_lem (b ∷ v) = elim (Bool-cases (is_whitespace b)) [
  | inl e ↦
      let (before, split, blank, starts) = remove_whitespace_prefix_lem v in
      (b ∷ before, rw e (ap (◌∷◌ b) split), rw (e, blank), rw e starts)
  | inr e ↦ ([], rw e, refl, rw e e)
]

drop_blank :
    (v : Bytes) (i : ℕ)
    → i < length v
    → is_whitespace (byte_at v i) ≡ true
    → all is_whitespace (drop (suc i) v) ≡ true
    → all is_whitespace (drop i v) ≡ true
drop_blank [] i h e a = absurd (omega arith)
drop_blank (b ∷ v) zero h e a = rw (e, a)
drop_blank (b ∷ v) (suc i) h e a = drop_blank v i (omega arith) e a

take_dark :
    (v : Bytes) (i : ℕ)
    → i < length v
    → is_whitespace (byte_at v i) ≡ false
    → EndsDark (take (suc i) v)
take_dark [] i h e = absurd (omega arith)
take_dark (b ∷ v) zero h e = e
take_dark (b ∷ []) (suc i) h e = absurd (omega arith)
take_dark (b ∷ c ∷ v) (suc i) h e = take_dark (c ∷ v) i (omega arith) e

postfix_end_lem :
    (v : Bytes) (n : ℕ)
    → n ≤ length v
    → all is_whitespace (drop n v) ≡ true
    → (all is_whitespace (drop (postfix_end v n) v) ≡ true) × EndsDark (take (postfix_end v n) v)
unfolding postfix_end
postfix_end_lem v zero h a = (a, tt)
postfix_end_lem v (suc i) h a = elim (Bool-cases (is_whitespace (byte_at v i))) [
  | inl e ↦ rw e (postfix_end_lem v i (omega arith) (drop_blank v i h e a))
  | inr e ↦ rw e (a, take_dark v i h e)
]

drop-length : (v : Bytes) → drop (length v) v ≡ []
drop-length [] = refl
drop-length (b ∷ v) = drop-length v

take-StartsDark : (n : ℕ) (v : Bytes) → StartsDark v → StartsDark (take n v)
take-StartsDark zero v h = tt
take-StartsDark (suc n) [] h = tt
take-StartsDark (suc n) (b ∷ v) h = h

-- `RemoveWhitespace` cuts whitespace, and nothing else, from both ends of the string, and leaves no
-- whitespace at either end.
pub remove_whitespace-IsTrimmed : (v : Bytes) → IsTrimmed v (remove_whitespace v)
unfolding remove_whitespace remove_whitespace_postfix
remove_whitespace-IsTrimmed v =
    let (before, split, blank, starts) = remove_whitespace_prefix_lem v in
    let w : Bytes = remove_whitespace_prefix v in
    let (after_blank, ends) = postfix_end_lem w (length w) (omega arith) (rw (drop-length w)) in
    record {
      before = before;
      after = drop (postfix_end w (length w)) w;
      split = split ∙ ap (◌++◌ before) (sym (take-append-drop (postfix_end w (length w)) w));
      before_blank = blank;
      after_blank = after_blank;
      starts = take-StartsDark (postfix_end w (length w)) w starts;
      ends = ends;
    }
