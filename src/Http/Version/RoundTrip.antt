-- ===== src/Http/Version/RoundTrip.antt =====
-- Versions and methods are read back as they were written.
use mathlib.Core.Path.{subst}
use jotpot_server.Base.{
  ℕ, ◌^◌, ◌<◌, ◌≡◌, ◌⊎◌, refl, sym, ◌∙◌, inl, inr, arith, true, Option, none, some, [], ◌∷◌, ◌++◌,
  ◌==◌, ==_iff, Bytes, equal, equal_iff, codes, Bool-cases, Option-cases,
}
use jotpot_server.Base.Decimal.{
  format_uint, parse_uint, parse_digits, Digits, digits, format_uint-Digits, parse-format_uint,
}
use jotpot_server.Http.Ranges.{cut}
use jotpot_server.Http.Ranges.Spec.{cut-here, All-Digits}
use jotpot_server.Http.Version.{
  Version, version, dot, format_version, known_version, parse_numbers, parse_version,
  parse_http_version, Method, other, read, post, write, stat, options, remove, unknown, get_method,
  get_method_str,
}

-- If the switch answers, then as the general parser does.
abbrev Agrees : ℕ → Bytes → Option Version → Type 0
Agrees c rest none = Unit
Agrees c rest (some v) = parse_numbers (c ∷ rest) ≡ (v, none)

numbers_literal :
    (a : ℕ) (b : Bytes) (c : ℕ) (rest : Bytes) (v : Version)
    → (c == a) ≡ true
    → equal rest b ≡ true
    → parse_numbers (a ∷ b) ≡ (v, none)
    → parse_numbers (c ∷ rest) ≡ (v, none)
numbers_literal a b c rest v e f h = rw ((==_iff c a).0 e, (equal_iff rest b).0 f) h

known_version-Agrees : (c : ℕ) (rest : Bytes) → Agrees c rest (known_version c rest)
unfolding known_version parse_numbers cut parse_uint parse_digits
known_version-Agrees c rest = elim (Bool-cases (c == 49)) [
  | inl e ↦ rw e (elim (Bool-cases (equal rest (codes ".1"))) [
    | inl f ↦ rw f (numbers_literal 49 (codes ".1") c rest (version 1 1) e f refl)
    | inr f ↦ rw f (elim (Bool-cases (equal rest (codes ".0"))) [
      | inl g ↦ rw g (numbers_literal 49 (codes ".0") c rest (version 1 0) e g refl)
      | inr g ↦ rw g tt
    ])
  ])
  | inr d ↦ rw d (elim (Bool-cases (c == 50)) [
    | inl e ↦ rw e (elim (Bool-cases (equal rest (codes ".0"))) [
      | inl g ↦ rw g (numbers_literal 50 (codes ".0") c rest (version 2 0) e g refl)
      | inr g ↦ rw g tt
    ])
    | inr b ↦ rw b (elim (Bool-cases (c == 51)) [
      | inl e ↦ rw e (elim (Bool-cases (equal rest (codes ".0"))) [
        | inl g ↦ rw g (numbers_literal 51 (codes ".0") c rest (version 3 0) e g refl)
        | inr g ↦ rw g tt
      ])
      | inr e ↦ rw e tt
    ])
  ])
]

-- So the switch is a short cut only.
parse_version-numbers : (c : ℕ) (rest : Bytes) → parse_version (c ∷ rest) ≡ parse_numbers (c ∷ rest)
unfolding parse_version
parse_version-numbers c rest = elim (Option-cases (known_version c rest)) [
  | inl e ↦ rw (e, parse_version) refl
  | inr (v, e) ↦ rw (e, parse_version) (sym (subst (Agrees c rest) e (known_version-Agrees c rest)))
]

parse_version-Digits :
    (s t : Bytes) → Digits s → parse_version (s ++ dot ∷ t) ≡ parse_numbers (s ++ dot ∷ t)
parse_version-Digits _ t (digits c cs d ds) = parse_version-numbers c (cs ++ dot ∷ t)

-- Every version of two 16-bit numbers is written so that it is read back, with no error.
pub parse-format_version :
    (v : Version)
    → v.major < 2 ^ 16
    → v.minor < 2 ^ 16
    → parse_http_version (format_version v) ≡ (v, none)
unfolding format_version parse_http_version parse_numbers
parse-format_version v h k =
    let ds = All-Digits (format_uint v.major) (format_uint-Digits v.major) in
    let at : cut dot (format_uint v.major ++ dot ∷ format_uint v.minor)
        ≡ some (format_uint v.major, format_uint v.minor) =
      cut-here dot (format_uint v.major) (format_uint v.minor) ds (omega arith) in
    parse_version-Digits (format_uint v.major) (format_uint v.minor) (format_uint-Digits v.major)
    ∙ rw (at, parse_numbers)
        (rw (parse-format_uint 16 v.major h) (rw (parse-format_uint 16 v.minor k) refl))

-- The name of a method that HTTP has is read as this method, and all other methods have the empty
-- name, which is the unknown method's.
pub get_method-str :
    (m : Method)
    → (get_method (get_method_str m) ≡ m)
      ⊎ ((get_method_str m ≡ []) × (get_method (get_method_str m) ≡ unknown))
unfolding get_method get_method_str
get_method-str unknown = inl refl
get_method-str read = inl refl
get_method-str post = inl refl
get_method-str write = inl refl
get_method-str stat = inl refl
get_method-str options = inl refl
get_method-str remove = inl refl
get_method-str (other n) = inr (refl, refl)
