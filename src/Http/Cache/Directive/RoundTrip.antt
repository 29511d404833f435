-- ===== src/Http/Cache/Directive/RoundTrip.antt =====
-- Directives that are written are read back, behind the blank ones that the parser makes first.
use mathlib.Core.List.{append_assoc, append-nil}
use jotpot_server.Base.{
  ℕ, ◌≡◌, refl, ap, ◌∙◌, arith, inl, inr, true, false, Bool-cases, none, some, List, [], ◌∷◌, ◌++◌,
  map, ◌==◌, if◌then◌else◌, Bytes, equal, all, All, &&_parts,
}
use jotpot_server.Http.Chars.{is_token_char}
use jotpot_server.Http.Quoted.{quote}
use jotpot_server.Http.Quoted.RoundTrip.{format_token}
use jotpot_server.Http.Ranges.{cut}
use jotpot_server.Http.Cache.Directive.{
  CacheControlDirective, header_string, parse_directive, parse_each, parse_directives, blanks,
  argument_error, equals_sign,
}

-- How a directive of token characters is written.
abbrev pub text : CacheControlDirective → Bytes
text d = if equal d.arg [] then d.name else d.name ++ equals_sign ∷ d.arg

-- The name and the argument are token characters.
pub record IsPlain (d : CacheControlDirective) : Type 0 where
  pub name_token : all is_token_char d.name ≡ true
  pub arg_token : all is_token_char d.arg ≡ true

pub header_string-text :
    (to_lower : Bytes → Bytes) (d : CacheControlDirective)
    → to_lower d.name ≡ d.name
    → IsPlain d
    → header_string to_lower d ≡ (text d, none)
unfolding header_string
header_string-text to_lower d kept h = elim (Bool-cases (equal d.arg [])) [
  | inl e ↦ rw (e, kept)
  | inr e ↦ rw (e, format_token d.arg h.arg_token)
]

token_not_equals : (c : ℕ) → is_token_char c ≡ true → (c == equals_sign) ≡ false
unfolding is_token_char
token_not_equals c h = ground arith

token_not_quote : (c : ℕ) → is_token_char c ≡ true → (c == quote) ≡ false
unfolding is_token_char
token_not_quote c h = ground arith

cut_token_none : (s : Bytes) → all is_token_char s ≡ true → cut equals_sign s ≡ none
unfolding cut
cut_token_none [] h = refl
cut_token_none (c ∷ s) h =
    let (hc, hs) = &&_parts (is_token_char c) (all is_token_char s) h in
    rw (token_not_equals c hc, cut_token_none s hs)

cut_token_some :
    (s rest : Bytes)
    → all is_token_char s ≡ true
    → cut equals_sign (s ++ equals_sign ∷ rest) ≡ some (s, rest)
unfolding cut
cut_token_some [] rest h = refl
cut_token_some (c ∷ s) rest h =
    let (hc, hs) = &&_parts (is_token_char c) (all is_token_char s) h in
    rw (token_not_equals c hc, cut_token_some s rest hs)

argument_error_token : (s : Bytes) → all is_token_char s ≡ true → argument_error s ≡ some none
unfolding argument_error
argument_error_token [] h = refl
argument_error_token (c ∷ s) h = rw (token_not_quote c (&&_parts _ _ h).0)

parse_directive-parts :
    (name arg : Bytes)
    → all is_token_char name ≡ true
    → all is_token_char arg ≡ true
    → parse_directive (text (record { name = name; arg = arg }))
      ≡ some (record { name = name; arg = arg }, none)
unfolding parse_directive
parse_directive-parts name [] h k = rw (parse_directive, cut_token_none name h)
parse_directive-parts name (c ∷ arg) h k =
    rw (parse_directive, cut_token_some name (c ∷ arg) h, argument_error_token (c ∷ arg) k)

pub parse_directive-text :
    (d : CacheControlDirective) → IsPlain d → parse_directive (text d) ≡ some (d, none)
parse_directive-text d h = parse_directive-parts d.name d.arg h.name_token h.arg_token

parse_each-text :
    (done ds : List CacheControlDirective)
    → All IsPlain ds
    → parse_each done (map text ds) ≡ some (done ++ ds, none)
unfolding parse_each
parse_each-text done [] h = rw (append-nil done)
parse_each-text done (d ∷ ds) h =
    rw (parse_each, parse_directive-text d h.0)
      (parse_each-text (done ++ d ∷ []) ds h.1
        ∙ ap (λ l. some (l, none)) (append_assoc done (d ∷ []) ds))

-- Directives of token characters are parsed as they were written, behind as many blank ones.
pub parse_directives-text :
    (ds : List CacheControlDirective)
    → All IsPlain ds
    → parse_directives (map text ds) ≡ some (blanks (map text ds) ++ ds, none)
unfolding parse_directives
parse_directives-text ds h = parse_each-text (blanks (map text ds)) ds h
