-- ===== src/Http/Heads/Newline.antt =====
-- A line has a newline at its end only, and so has what the scanners leave of it.
use jotpot_server.Base.{
  ℕ, ◌+◌, ◌≡◌, refl, ◌⊎◌, inl, inr, false, [], ◌∷◌, ◌==◌, arith, Option, some, none, Bytes, length,
  Bool-cases, Option-cases,
}
use mathlib.Core.Path.{subst}
use jotpot_server.Http.Chars.{is_whitespace, is_token_char, is_v_char}
use jotpot_server.Http.Heads.{
  Reader, read_bytes, until_newline, Scanned, panic, illegal, blank_end, line_end, Place, head,
  behind_v_char, blanks, behind, scan_value, next_place, at_head, at_line_end, scan_key, split_key,
  with_byte, key_end, key_error, split_blanks, go, stop, Next, Key,
}
use jotpot_server.Http.Heads.Text.{Next-cases}

abbrev pub IsLine : Bytes → Type 0
IsLine [] = Unit
IsLine (b ∷ v) = (((b == 10) ≡ false) ⊎ (v ≡ [])) × IsLine v

until_newline-IsLine : (v : Bytes) → IsLine (until_newline v).0
until_newline-IsLine [] = tt
until_newline-IsLine (b ∷ v) = elim (Bool-cases (b == 10)) [
  | inl e ↦ rw e (inr refl, tt)
  | inr e ↦ rw e (inl e, until_newline-IsLine v)
]

pub read_bytes-IsLine : (s : Reader) → IsLine (read_bytes s).0.text
unfolding read_bytes
read_bytes-IsLine s = until_newline-IsLine s.bytes

length-until_newline :
    (v : Bytes) → length (until_newline v).0 + length (until_newline v).1 ≡ length v
length-until_newline [] = omega arith
length-until_newline (b ∷ v) = elim (Bool-cases (b == 10)) [
  | inl e ↦ rw e (omega arith)
  | inr e ↦ rw e (omega (arith, length-until_newline v))
]

-- A line and what is left make up what was there.
pub length-read_bytes :
    (s : Reader) → length (read_bytes s).0.text + length (read_bytes s).1.bytes ≡ length s.bytes
unfolding read_bytes
length-read_bytes s = length-until_newline s.bytes

abbrev pub LeavesLine : Scanned → Type 0
LeavesLine (line_end v n end) = IsLine end
LeavesLine _ = Unit

behind-LeavesLine : (b : ℕ) (s : Scanned) → LeavesLine s → LeavesLine (behind b s)
behind-LeavesLine b (line_end v n end) h = h
behind-LeavesLine b panic h = tt
behind-LeavesLine b illegal h = tt
behind-LeavesLine b (blank_end v n) h = tt

abbrev StopsLine : Next → Type 0
StopsLine (stop s) = LeavesLine s
StopsLine (go p) = Unit

at_line_end-StopsLine :
    (s : Scanned) (b : ℕ) (rest : Bytes) → LeavesLine s → StopsLine (at_line_end s b rest)
unfolding at_line_end
at_line_end-StopsLine s b [] h = elim (Bool-cases (b == 13)) [ inl e ↦ rw e tt | inr e ↦ rw e tt ]
at_line_end-StopsLine s b (c ∷ rest) h = elim (Bool-cases (b == 13)) [
  | inr e ↦ rw e tt
  | inl e ↦ elim (Bool-cases (c == 10)) [ inl d ↦ rw e (rw d h) | inr d ↦ rw e (rw d tt) ]
]

at_head-StopsLine : (ws b : ℕ) (rest : Bytes) → IsLine (b ∷ rest) → StopsLine (at_head ws b rest)
unfolding at_head
at_head-StopsLine ws b rest h = elim (Bool-cases (is_v_char b)) [
  | inl e ↦ rw e tt
  | inr e ↦ rw e (at_line_end-StopsLine (line_end [] ws (b ∷ rest)) b rest h)
]

next_place-StopsLine :
    (p : Place) (b : ℕ) (rest : Bytes) → IsLine (b ∷ rest) → StopsLine (next_place p b rest)
unfolding next_place
next_place-StopsLine (head ws) b rest h = at_head-StopsLine ws b rest h
next_place-StopsLine behind_v_char b rest h = elim (Bool-cases (is_whitespace b)) [
  | inl e ↦ rw e tt
  | inr e ↦ rw e (at_head-StopsLine 0 b rest h)
]
next_place-StopsLine (blanks ws) b rest h = elim (Bool-cases (is_whitespace b)) [
  | inl e ↦ rw e tt
  | inr e ↦ elim (Bool-cases (is_v_char b)) [
    | inl d ↦ rw e (rw d tt)
    | inr d ↦ rw e (rw d (at_line_end-StopsLine (blank_end [] ws) b rest tt))
  ]
]

pub scan_value-LeavesLine :
    (p : Place) (rest : Bytes) → IsLine rest → LeavesLine (scan_value p rest)
unfolding scan_value
scan_value-LeavesLine p [] h = tt
scan_value-LeavesLine p (b ∷ rest) h = elim (Next-cases (next_place p b rest)) [
  | inl (s, e) ↦ rw (e, scan_value) (subst StopsLine e (next_place-StopsLine p b rest h))
  | inr (p', e) ↦
      rw (e, scan_value)
        (behind-LeavesLine b (scan_value p' rest) (scan_value-LeavesLine p' rest h.1))
]

abbrev pub KeyLeavesLine : Key → Type 0
KeyLeavesLine (key_end key rest) = IsLine rest
KeyLeavesLine (key_error e) = Unit

with_byte-KeyLeavesLine : (b : ℕ) (k : Key) → KeyLeavesLine k → KeyLeavesLine (with_byte b k)
with_byte-KeyLeavesLine b (key_end key rest) h = h
with_byte-KeyLeavesLine b (key_error e) h = tt

scan_key-KeyLeavesLine : (v : Bytes) → IsLine v → KeyLeavesLine (scan_key v)
unfolding scan_key
scan_key-KeyLeavesLine [] h = tt
scan_key-KeyLeavesLine (b ∷ v) h = elim (Bool-cases (is_token_char b)) [
  | inl e ↦ rw e (with_byte-KeyLeavesLine b (scan_key v) (scan_key-KeyLeavesLine v h.1))
  | inr e ↦ elim (Bool-cases (b == 58)) [ inl d ↦ rw e (rw d h.1) | inr d ↦ rw e (rw d tt) ]
]

pub split_key-KeyLeavesLine : (v : Bytes) → IsLine v → KeyLeavesLine (split_key v)
unfolding split_key
split_key-KeyLeavesLine [] h = tt
split_key-KeyLeavesLine (b ∷ v) h = elim (Bool-cases (is_token_char b)) [
  | inl e ↦ rw e (with_byte-KeyLeavesLine b (scan_key v) (scan_key-KeyLeavesLine v h.1))
  | inr e ↦ rw e tt
]

abbrev pub BlanksLeaveLine : Option (Bytes × Bytes) → Type 0
BlanksLeaveLine none = Unit
BlanksLeaveLine (some (bs, rest)) = IsLine rest

pub split_blanks-BlanksLeaveLine : (v : Bytes) → IsLine v → BlanksLeaveLine (split_blanks v)
unfolding split_blanks
split_blanks-BlanksLeaveLine [] h = tt
split_blanks-BlanksLeaveLine (b ∷ v) h = elim (Bool-cases (is_whitespace b)) [
  | inr e ↦ rw e h
  | inl e ↦ elim (Option-cases (split_blanks v)) [
    | inl d ↦ rw e (rw d tt)
    | inr (r, d) ↦ rw e (rw d (subst BlanksLeaveLine d (split_blanks-BlanksLeaveLine v h.1)))
  ]
]
