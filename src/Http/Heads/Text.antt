-- ===== src/Http/Heads/Text.antt =====
-- Of what bytes the parts of a field are that the scanners give.
use jotpot_server.Base.{
  ℕ, zero, suc, ◌+◌, ◌≤◌, ◌≡◌, refl, ◌∙◌, ◌⊎◌, inl, inr, true, ◌||◌, [], ◌∷◌, ◌++◌, ◌==◌, arith,
  Option, some, none, Bytes, All, length, take, Bool-cases, Option-cases, ==_iff, ap₂,
}
use mathlib.Core.Path.{subst}
use jotpot_server.Http.Chars.{is_whitespace, is_token_char, is_v_char}
use jotpot_server.Http.Heads.{
  Scanned, panic, illegal, blank_end, line_end, Place, head, behind_v_char, blanks, behind,
  scan_value, next_place, at_head, at_line_end, scan_key, split_key, with_byte, key_end, key_error,
  split_blanks, go, stop, Next, Key,
}
use jotpot_server.Http.Heads.Scan.{IsBlank, IsToken, IsLong}

-- A visible character or whitespace.
abbrev pub IsText : ℕ → Type 0
IsText b = (is_v_char b || is_whitespace b) ≡ true

pub blank-IsText : (b : ℕ) → IsBlank b → IsText b
blank-IsText b h = ground (arith, h)

-- Text in which a line break may stand, if whitespace follows it.
pub data Folded : Bytes → Type 0 where
  nil : Folded []
  text : (b : ℕ) (v : Bytes) → IsText b → Folded v → Folded (b ∷ v)
  fold : (c : ℕ) (v : Bytes) → IsBlank c → Folded v → Folded (13 ∷ 10 ∷ c ∷ v)

pub Folded-append : {v : Bytes} (w : Bytes) → Folded v → Folded w → Folded (v ++ w)
Folded-append w nil k = k
Folded-append w (text b v t h) k = text b (v ++ w) t (Folded-append w h k)
Folded-append w (fold c v t h) k = fold c (v ++ w) t (Folded-append w h k)

pub Folded-text : (v : Bytes) → All IsText v → Folded v
Folded-text [] h = nil
Folded-text (b ∷ v) h = text b v h.0 (Folded-text v h.1)

pub All-take {κ} : (P : ℕ → Type κ) (n : ℕ) (v : Bytes) → All P v → All P (take n v)
All-take P zero v h = tt
All-take P (suc n) [] h = tt
All-take P (suc n) (b ∷ v) h = (h.0, All-take P n v h.1)

-- The whitespace that is counted at a place of the loop, and that which the value ends with there.
abbrev pub counted : Place → ℕ
counted (head ws) = 0
counted behind_v_char = 0
counted (blanks ws) = ws

abbrev pub at_start : Place → ℕ
at_start (head ws) = ws
at_start _ = 0

-- What the scan reads is text; it counts no more whitespace than it reads, but for that which was
-- counted before.
abbrev pub ScansText : Place → Scanned → Type 0
ScansText p panic = Unit
ScansText p illegal = Unit
ScansText p (blank_end v m) = All IsText v × (m ≤ length v + counted p)
ScansText p (line_end v m end) =
    All IsText v × ((x : Bytes) × (end ≡ 13 ∷ 10 ∷ x)) × ((m ≡ 0) ⊎ ((v ≡ []) × (m ≡ at_start p)))

abbrev StepsText : Place → ℕ → Next → Type 0
StepsText p b (stop s) = ScansText p s
StepsText p b (go p') = IsText b × (counted p' ≤ suc (counted p)) × (at_start p' ≡ 0)

at_line_end-ScansText :
    (p : Place) (s : Scanned) (b : ℕ) (rest : Bytes)
    → ((x : Bytes) → b ∷ rest ≡ 13 ∷ 10 ∷ x → ScansText p s)
    → StepsText p b (at_line_end s b rest)
unfolding at_line_end
at_line_end-ScansText p s b [] k = elim (Bool-cases (b == 13)) [ inl e ↦ rw e tt | inr e ↦ rw e tt ]
at_line_end-ScansText p s b (c ∷ rest) k = elim (Bool-cases (b == 13)) [
  | inr e ↦ rw e tt
  | inl e ↦ elim (Bool-cases (c == 10)) [
    | inr d ↦ rw e (rw d tt)
    | inl d ↦
        rw e (rw d (k rest (ap₂ (λ x y. x ∷ y ∷ rest) ((==_iff b 13).0 e) ((==_iff c 10).0 d))))
  ]
]

at_head-StepsText :
    (p : Place) (ws b : ℕ) (rest : Bytes) → ws ≡ at_start p → StepsText p b (at_head ws b rest)
unfolding at_head
at_head-StepsText p ws b rest z = elim (Bool-cases (is_v_char b)) [
  | inl e ↦ rw e (rw e refl, omega arith, refl)
  | inr e ↦ rw e (
      at_line_end-ScansText p (line_end [] ws (b ∷ rest)) b rest
        (λ x q. (tt, (x, q), inr (refl, z))))
]

next_place-StepsText : (p : Place) (b : ℕ) (rest : Bytes) → StepsText p b (next_place p b rest)
unfolding next_place
next_place-StepsText (head ws) b rest = at_head-StepsText (head ws) ws b rest refl
next_place-StepsText behind_v_char b rest = elim (Bool-cases (is_whitespace b)) [
  | inl e ↦ rw e (blank-IsText b e, omega arith, refl)
  | inr e ↦ rw e (at_head-StepsText behind_v_char 0 b rest refl)
]
next_place-StepsText (blanks ws) b rest = elim (Bool-cases (is_whitespace b)) [
  | inl e ↦ rw e (blank-IsText b e, omega arith, refl)
  | inr e ↦ elim (Bool-cases (is_v_char b)) [
    | inl d ↦ rw e (rw d (rw d refl, omega arith, refl))
    | inr d ↦ rw e (
        rw d
          (at_line_end-ScansText (blanks ws) (blank_end [] ws) b rest (λ x q. (tt, omega arith))))
  ]
]

behind-ScansText :
    (p p' : Place) (b : ℕ) (s : Scanned)
    → StepsText p b (go p')
    → ScansText p' s
    → ScansText p (behind b s)
behind-ScansText p p' b panic h k = tt
behind-ScansText p p' b illegal h k = tt
behind-ScansText p p' b (blank_end v m) h k = ((h.0, k.0), omega (arith, h.1, k.1))
behind-ScansText p p' b (line_end v m end) h k =
    ((h.0, k.0), k.1, elim k.2 [ inl e ↦ inl e | inr e ↦ inl (e.1 ∙ h.2) ])

pub Next-cases : (n : Next) → ((s : Scanned) × (n ≡ stop s)) ⊎ ((p : Place) × (n ≡ go p))
Next-cases (stop s) = inl (s, refl)
Next-cases (go p) = inr (p, refl)

pub scan_value-ScansText : (p : Place) (rest : Bytes) → ScansText p (scan_value p rest)
unfolding scan_value
scan_value-ScansText p [] = tt
scan_value-ScansText p (b ∷ rest) = elim (Next-cases (next_place p b rest)) [
  | inl (s, e) ↦ rw (e, scan_value) (subst (StepsText p b) e (next_place-StepsText p b rest))
  | inr (p', e) ↦
      rw (e, scan_value)
        (behind-ScansText p p' b (scan_value p' rest)
          (subst (StepsText p b) e (next_place-StepsText p b rest)) (scan_value-ScansText p' rest))
]

-- A key is of token characters, at least one.
abbrev pub IsKey : Bytes → Type 0
IsKey key = All IsToken key × IsLong (0 ∷ key)

abbrev HasTokens : Key → Type 0
HasTokens (key_error e) = Unit
HasTokens (key_end key rest) = All IsToken key

with_byte-HasTokens : (b : ℕ) (k : Key) → IsToken b → HasTokens k → HasTokens (with_byte b k)
with_byte-HasTokens b (key_error e) t h = tt
with_byte-HasTokens b (key_end key rest) t h = (t, h)

scan_key-HasTokens : (rest : Bytes) → HasTokens (scan_key rest)
unfolding scan_key
scan_key-HasTokens [] = tt
scan_key-HasTokens (b ∷ rest) = elim (Bool-cases (is_token_char b)) [
  | inl e ↦ rw e (with_byte-HasTokens b (scan_key rest) e (scan_key-HasTokens rest))
  | inr e ↦ elim (Bool-cases (b == 58)) [ inl d ↦ rw e (rw d tt) | inr d ↦ rw e (rw d tt) ]
]

abbrev pub HasKey : Key → Type 0
HasKey (key_error e) = Unit
HasKey (key_end key rest) = IsKey key

with_byte-HasKey : (b : ℕ) (k : Key) → IsToken b → HasTokens k → HasKey (with_byte b k)
with_byte-HasKey b (key_error e) t h = tt
with_byte-HasKey b (key_end key rest) t h = ((t, h), omega arith)

pub split_key-HasKey : (line : Bytes) → HasKey (split_key line)
unfolding split_key
split_key-HasKey [] = tt
split_key-HasKey (b ∷ rest) = elim (Bool-cases (is_token_char b)) [
  | inl e ↦ rw e (with_byte-HasKey b (scan_key rest) e (scan_key-HasTokens rest))
  | inr e ↦ rw e tt
]

abbrev pub HasBlanks : Option (Bytes × Bytes) → Type 0
HasBlanks none = Unit
HasBlanks (some (bs, rest)) = All IsBlank bs

pub split_blanks-HasBlanks : (v : Bytes) → HasBlanks (split_blanks v)
unfolding split_blanks
split_blanks-HasBlanks [] = tt
split_blanks-HasBlanks (b ∷ v) = elim (Bool-cases (is_whitespace b)) [
  | inr e ↦ rw e tt
  | inl e ↦ elim (Option-cases (split_blanks v)) [
    | inl d ↦ rw e (rw d tt)
    | inr (r, d) ↦ rw e (rw d (e, subst HasBlanks d (split_blanks-HasBlanks v)))
  ]
]
