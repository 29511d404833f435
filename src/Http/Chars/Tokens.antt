-- ===== src/Http/Chars/Tokens.antt =====
-- IsValidToken, IsValidTokenString and ReadToken of http/httpchars/characters.go. A loop over the
-- runes of a string carries how many bytes of the present rune are still to be passed.
use jotpot_server.Base.{
  ℕ, zero, suc, ◌-◌, ◌%◌, ◌≡◌, ◌≢◌, refl, ap, arith, inl, inr, Bool, true, false, Bool-cases, [],
  ◌∷◌, ◌++◌, all, if◌then◌else◌, Bytes, ltb,
}
use jotpot_server.Http.Chars.{
  is_token_char, is_token_rune, Rune, decode_rune, decode_rune_ascii, decode_rune_token,
  is_token_char-ltb,
}
use mathlib.Core.List.{append_assoc}

unfoldable pub is_valid_token : Bytes → Bool
is_valid_token [] = false
is_valid_token (b ∷ bytes) = all is_token_char (b ∷ bytes)

-- The loop of `IsValidTokenString`; its two tests are those of `IsTokenRune`.
unfoldable pub valid_runes : ℕ → Bytes → Bool
valid_runes skip [] = true
valid_runes (suc skip) (b ∷ s) = valid_runes skip s
valid_runes zero (b ∷ s) =
    let r = decode_rune b s in
    let rest = valid_runes (r.width - 1) s in
    if ltb 255 r.value then false else if is_token_char (r.value % 256) then rest else false

unfoldable pub is_valid_token_string : Bytes → Bool
is_valid_token_string s = valid_runes 0 s

-- The loop of `ReadToken`: `taken` is s[:i].
unfoldable pub read_runes : Bytes → ℕ → Bytes → Bytes × Bytes
read_runes taken skip [] = (taken, [])
read_runes taken (suc skip) (b ∷ s) = read_runes (taken ++ b ∷ []) skip s
read_runes taken zero (b ∷ s) =
    let r = decode_rune b s in
    let rest = read_runes (taken ++ b ∷ []) (r.width - 1) s in
    if is_token_rune r.value then rest else (taken, b ∷ s)

unfoldable pub read_token : Bytes → Bytes × Bytes
read_token s = read_runes [] 0 s

token_width : (b : ℕ) (s : Bytes) → is_token_char b ≡ true → (decode_rune b s).width ≡ 1
token_width b s h = ap (λ (r : Rune). r.width) (decode_rune_ascii b s (is_token_char-ltb b h))

valid_runes-all : (s : Bytes) → valid_runes 0 s ≡ all is_token_char s
unfolding valid_runes is_token_rune
valid_runes-all [] = refl
valid_runes-all (b ∷ s) = elim (Bool-cases (is_token_char b)) [
  | inl e ↦
      let w : (decode_rune b s).width - 1 ≡ 0 = omega (arith, token_width b s e) in
      rw w (ground (arith, decode_rune_token b s, valid_runes-all s))
  | inr e ↦ ground (arith, decode_rune_token b s)
]

-- `IsValidTokenString` agrees with `IsValidToken` on every string but the empty one, which the
-- former accepts and the latter refuses.
pub is_valid_token_string_correct :
    (s : Bytes)
    → ((s ≢ []) → is_valid_token_string s ≡ is_valid_token s)
      × (s ≡ [] → (is_valid_token_string s ≡ true) × (is_valid_token s ≡ false))
unfolding is_valid_token_string is_valid_token valid_runes
is_valid_token_string_correct [] = (λ ne. absurd (ne refl), λ _. (refl, refl))
is_valid_token_string_correct (b ∷ s) = (λ _. valid_runes-all (b ∷ s), λ e. cc)

-- A string starts with no token character.
abbrev pub StartsOutside : Bytes → Type 0
StartsOutside [] = Unit
StartsOutside (b ∷ s) = is_token_char b ≡ false

abbrev pub IsTokenSplit : Bytes → Bytes × Bytes → Type 0
IsTokenSplit s (token, rest) =
    (token ++ rest ≡ s) × (all is_token_char token ≡ true) × StartsOutside rest

all-concat :
    (l : Bytes) (b : ℕ)
    → all is_token_char l ≡ true
    → is_token_char b ≡ true
    → all is_token_char (l ++ b ∷ []) ≡ true
all-concat [] b h k = rw k
all-concat (x ∷ l) b h k = ground (arith, all-concat l b)

read_runes-IsTokenSplit :
    (taken s : Bytes)
    → all is_token_char taken ≡ true
    → IsTokenSplit (taken ++ s) (read_runes taken 0 s)
unfolding read_runes
read_runes-IsTokenSplit taken [] h = (refl, h, tt)
read_runes-IsTokenSplit taken (b ∷ s) h = elim (Bool-cases (is_token_char b)) [
  | inl e ↦
      let w : (decode_rune b s).width - 1 ≡ 0 = omega (arith, token_width b s e) in
      rw (decode_rune_token b s, e, w)
        (rw (append_assoc taken (b ∷ []) s) at
          (read_runes-IsTokenSplit (taken ++ b ∷ []) s (all-concat taken b h e)))
  | inr e ↦ rw (decode_rune_token b s, e) (refl, h, e)
]

-- `ReadToken` splits the string behind its longest prefix of token characters.
pub read_token-IsTokenSplit : (s : Bytes) → IsTokenSplit s (read_token s)
unfolding read_token
read_token-IsTokenSplit s = read_runes-IsTokenSplit [] s refl
