-- ===== src/Http/Cache/Resource/Entries.antt =====
-- What is written of a response's cache control (http/cache-control.go) as a list of entries, and
-- what the parser's loop sees of it.
use mathlib.Core.List.{append_assoc, append-nil}
use jotpot_server.Base.{
  ℕ, ◌/◌, ◌^◌, ◌<◌, ◌≡◌, refl, ap, ◌∙◌, arith, Bool, true, false, ◌&&◌, ◌||◌, none, some, List, [],
  ◌∷◌, ◌++◌, map, Bytes, codes, all, All, leb, ◌==◌,
}
use jotpot_server.Base.Int.{pos}
use jotpot_server.Base.Decimal.{
  IsDigit, Digits, digits, format_uint, format_uint-Digits, parse_int-format_uint,
  parse-format_uint,
}
use jotpot_server.Http.Chars.{is_token_char}
use jotpot_server.Http.Message.{second, format_seconds}
use jotpot_server.Http.Cache.Directive.{CacheControlDirective, blanks}
use jotpot_server.Http.Cache.Directive.RoundTrip.{IsPlain}
use jotpot_server.Http.Cache.Resource.{
  dir_private, dir_public, dir_no_cache, dir_no_store, dir_must_revalidate, dir_proxy_revalidate,
  dir_max_age, dir_s_max_age, word,
}
use jotpot_server.Http.Cache.Resource.Parse.{Seen, seconds, see, see_all}

-- The ages are in nanoseconds.
pub data Entry : Type 0 where
  private_entry public_entry no_cache_entry no_store_entry must_revalidate_entry : Entry
  proxy_revalidate_entry no_transform_entry : Entry
  max_age_entry s_max_age_entry : ℕ → Entry

abbrev pub directive : Entry → CacheControlDirective
directive private_entry = dir_private
directive public_entry = dir_public
directive no_cache_entry = dir_no_cache
directive no_store_entry = dir_no_store
directive must_revalidate_entry = dir_must_revalidate
directive proxy_revalidate_entry = dir_proxy_revalidate
directive no_transform_entry = word (codes "no-transform")
directive (max_age_entry n) = dir_max_age (pos n)
directive (s_max_age_entry n) = dir_s_max_age (pos n)

abbrev pub see_entry : Entry → Seen → Seen
see_entry private_entry s = record s { private = true }
see_entry public_entry s = record s { public = true }
see_entry no_cache_entry s = record s { no_cache = true }
see_entry no_store_entry s = record s { no_store = true }
see_entry must_revalidate_entry s = record s { must_revalidate = true }
see_entry proxy_revalidate_entry s = record s { proxy_revalidate = true }
see_entry no_transform_entry s = record s { can_transform = false }
see_entry (max_age_entry n) s = record s { max_age = some (seconds (pos (n / second))) }
see_entry (s_max_age_entry n) s = record s { s_max_age = some (seconds (pos (n / second))) }

abbrev pub see_entries : List Entry → Seen → Seen
see_entries [] s = s
see_entries (e ∷ es) s = see_entries es (see_entry e s)

-- An age of an entry is an int64.
abbrev pub IsBounded : Entry → Type 0
IsBounded (max_age_entry n) = n < 2 ^ 63
IsBounded (s_max_age_entry n) = n < 2 ^ 63
IsBounded _ = Unit

see-entry : (e : Entry) (s : Seen) → IsBounded e → see (directive e) s ≡ (see_entry e s, none)
unfolding see format_seconds
see-entry private_entry s h = refl
see-entry public_entry s h = refl
see-entry no_cache_entry s h = refl
see-entry no_store_entry s h = refl
see-entry must_revalidate_entry s h = refl
see-entry proxy_revalidate_entry s h = refl
see-entry no_transform_entry s h = refl
see-entry (max_age_entry n) s h =
    let p = parse_int-format_uint (n / second) (omega (arith, h)) in
    rw (ap (λ q. q.1) p, ap (λ q. q.0) p)
see-entry (s_max_age_entry n) s h = rw (parse-format_uint 64 (n / second) (omega (arith, h)))

see_all_step :
    (d : CacheControlDirective) (ds : List CacheControlDirective) (s s' : Seen)
    → see d s ≡ (s', none)
    → see_all (d ∷ ds) s ≡ see_all ds s'
unfolding see_all
see_all_step d ds s s' h = ground (arith, h)

pub see_all-entries :
    (es : List Entry) (s : Seen)
    → All IsBounded es
    → see_all (map directive es) s ≡ (see_entries es s, none)
unfolding see_all
see_all-entries [] s h = refl
see_all-entries (e ∷ es) s h =
    see_all_step (directive e) (map directive es) s (see_entry e s) (see-entry e s h.0)
    ∙ see_all-entries es (see_entry e s) h.1

pub see_all-blanks :
    (ss : List Bytes) (ds : List CacheControlDirective) (s : Seen)
    → see_all (blanks ss ++ ds) s ≡ see_all ds (record s { extras = s.extras ++ blanks ss })
unfolding blanks see_all see
see_all-blanks [] ds s = rw (append-nil s.extras)
see_all-blanks (x ∷ ss) ds s =
    let blank : CacheControlDirective = record { name = []; arg = [] } in
    see_all-blanks ss ds (record s { extras = s.extras ++ blank ∷ [] })
    ∙ ap (λ l. see_all ds (record s { extras = l }))
        (append_assoc s.extras (blank ∷ []) (blanks ss))

digit_token : (c : ℕ) → IsDigit c → is_token_char c ≡ true
unfolding is_token_char
digit_token c h = ground (arith, h.above, h.below)

digits_token : (cs : Bytes) → All IsDigit cs → all is_token_char cs ≡ true
digits_token [] h = refl
digits_token (c ∷ cs) h = rw (digit_token c h.0) (digits_token cs h.1)

Digits-token : (s : Bytes) → Digits s → all is_token_char s ≡ true
Digits-token _ (digits c cs h hs) = rw (digit_token c h) (digits_token cs hs)

plain_word : (name : Bytes) → all is_token_char name ≡ true → IsPlain (word name)
plain_word name h = record { name_token = h; arg_token = refl }

pub directive-IsPlain : (e : Entry) → IsPlain (directive e)
unfolding is_token_char format_seconds
directive-IsPlain private_entry = plain_word (codes "private") refl
directive-IsPlain public_entry = plain_word (codes "public") refl
directive-IsPlain no_cache_entry = plain_word (codes "no-cache") refl
directive-IsPlain no_store_entry = plain_word (codes "no-store") refl
directive-IsPlain must_revalidate_entry = plain_word (codes "must-revalidate") refl
directive-IsPlain proxy_revalidate_entry = plain_word (codes "proxy-revalidate") refl
directive-IsPlain no_transform_entry = plain_word (codes "no-transform") refl
directive-IsPlain (max_age_entry n) = record {
  name_token = refl;
  arg_token = Digits-token (format_uint (n / second)) (format_uint-Digits (n / second));
}
directive-IsPlain (s_max_age_entry n) = record {
  name_token = refl;
  arg_token = Digits-token (format_uint (n / second)) (format_uint-Digits (n / second));
}

pub entries-IsPlain : (es : List Entry) → All IsPlain (map directive es)
entries-IsPlain [] = tt
entries-IsPlain (e ∷ es) = (directive-IsPlain e, entries-IsPlain es)

-- A byte of a lower-case name.
abbrev pub is_lower : ℕ → Bool
is_lower c = (leb b'a' c && leb c b'z') || c == b'-'

pub directive_lower : (e : Entry) → all is_lower (directive e).name ≡ true
directive_lower private_entry = refl
directive_lower public_entry = refl
directive_lower no_cache_entry = refl
directive_lower no_store_entry = refl
directive_lower must_revalidate_entry = refl
directive_lower proxy_revalidate_entry = refl
directive_lower no_transform_entry = refl
directive_lower (max_age_entry n) = refl
directive_lower (s_max_age_entry n) = refl
