-- ===== src/Http/Cache/Request/RoundTrip.antt =====
-- The cache control of a request, written and read back.
use mathlib.Core.List.{append_assoc, append-nil, map-append}
use jotpot_server.Base.{
  ◌≡◌, refl, ap, sym, ◌∙◌, arith, Bool, true, false, ◌||◌, none, some, List, [], ◌∷◌, ◌++◌, map,
  if◌then◌else◌, Bytes, codes, equal, All, All-append,
}
use jotpot_server.Http.Chars.{is_token_char}
use jotpot_server.Http.Cache.Directive.{CacheControlDirective, header_string, blanks}
use jotpot_server.Http.Cache.Directive.RoundTrip.{
  IsPlain, text, header_string-text, parse_directives-text,
}
use jotpot_server.Http.Cache.Request.{
  RequestCacheControl, RequestCacheMode, default_request_cache_control, mode_headers, append_extras,
  request_headers, Seen, see, see_all, nothing_seen, mode_seen, parse_request,
  parse_request_headers,
}

-- The parser has a case for the name.
abbrev is_known : Bytes → Bool
is_known name =
    equal name (codes "no-transform")
    || equal name (codes "max-age")
    || equal name (codes "min-fresh")
    || equal name (codes "max-stale")
    || equal name (codes "no-cache")
    || equal name (codes "no-store")
    || equal name (codes "only-if-cached")

with_extras : List CacheControlDirective → Seen → Seen
with_extras es s = record s { out = record s.out { extras = s.out.extras ++ es } }

-- A directive that a request's cache control can carry as an extra one.
pub record IsExtra (to_lower : Bytes → Bytes) (d : CacheControlDirective) : Type 0 where
  pub kept : to_lower d.name ≡ d.name
  pub plain : IsPlain d
  pub unknown : is_known d.name ≡ false

see_unknown :
    (d : CacheControlDirective) (s : Seen)
    → is_known d.name ≡ false
    → see d s ≡ (record s { out = record s.out { extras = s.out.extras ++ d ∷ [] } }, none)
unfolding see
see_unknown d s h = ground arith

abbrev IsUnknown : CacheControlDirective → Type 0
IsUnknown d = is_known d.name ≡ false

see_all_step :
    (d : CacheControlDirective) (ds : List CacheControlDirective) (s s' : Seen)
    → see d s ≡ (s', none)
    → see_all (d ∷ ds) s ≡ see_all ds s'
unfolding see_all
see_all_step d ds s s' h = ground (arith, h)

see_all-unknown :
    (es ds : List CacheControlDirective) (s : Seen)
    → All IsUnknown es
    → see_all (es ++ ds) s ≡ see_all ds (with_extras es s)
unfolding see_all with_extras
see_all-unknown [] ds s h = rw (append-nil s.out.extras)
see_all-unknown (e ∷ es) ds s h =
    see_all_step e (es ++ ds) s (with_extras (e ∷ []) s) (see_unknown e s h.0)
    ∙ (see_all-unknown es ds (with_extras (e ∷ []) s) h.1
        ∙ ap (λ l. see_all ds (record s { out = record s.out { extras = l } }))
            (append_assoc s.out.extras (e ∷ []) es))

blanks-IsUnknown : (ss : List Bytes) → All IsUnknown (blanks ss)
unfolding blanks
blanks-IsUnknown [] = tt
blanks-IsUnknown (s ∷ ss) = (refl, blanks-IsUnknown ss)

-- The directives for the mode and the transformation.
mode_directives : RequestCacheMode → List CacheControlDirective
mode_directives RequestCacheMode.unspecified = []
mode_directives RequestCacheMode.no_cache = record { name = codes "no-cache"; arg = [] } ∷ []
mode_directives RequestCacheMode.no_store = record { name = codes "no-store"; arg = [] } ∷ []
mode_directives RequestCacheMode.only_if_cached =
    record { name = codes "only-if-cached"; arg = [] } ∷ []

transform_directives : Bool → List CacheControlDirective
transform_directives true = []
transform_directives false = record { name = codes "no-transform"; arg = [] } ∷ []

set_directives : RequestCacheMode → Bool → List CacheControlDirective
set_directives mode can = mode_directives mode ++ transform_directives can

mode_directives-IsPlain : (mode : RequestCacheMode) → All IsPlain (mode_directives mode)
unfolding mode_directives is_token_char
mode_directives-IsPlain RequestCacheMode.unspecified = tt
mode_directives-IsPlain RequestCacheMode.no_cache =
    (record { name_token = refl; arg_token = refl }, tt)
mode_directives-IsPlain RequestCacheMode.no_store =
    (record { name_token = refl; arg_token = refl }, tt)
mode_directives-IsPlain RequestCacheMode.only_if_cached =
    (record { name_token = refl; arg_token = refl }, tt)

transform_directives-IsPlain : (can : Bool) → All IsPlain (transform_directives can)
unfolding transform_directives is_token_char
transform_directives-IsPlain true = tt
transform_directives-IsPlain false = (record { name_token = refl; arg_token = refl }, tt)

extras-IsPlain :
    (to_lower : Bytes → Bytes) (es : List CacheControlDirective)
    → All (IsExtra to_lower) es
    → All IsPlain es
extras-IsPlain to_lower [] h = tt
extras-IsPlain to_lower (e ∷ es) h = (h.0.plain, extras-IsPlain to_lower es h.1)

extras-IsUnknown :
    (to_lower : Bytes → Bytes) (es : List CacheControlDirective)
    → All (IsExtra to_lower) es
    → All IsUnknown es
extras-IsUnknown to_lower [] h = tt
extras-IsUnknown to_lower (e ∷ es) h = (h.0.unknown, extras-IsUnknown to_lower es h.1)

written-IsPlain :
    (to_lower : Bytes → Bytes) (mode : RequestCacheMode) (can : Bool)
    (es : List CacheControlDirective)
    → All (IsExtra to_lower) es
    → All IsPlain (set_directives mode can ++ es)
unfolding set_directives
written-IsPlain to_lower mode can es h =
    All-append IsPlain (mode_directives mode ++ transform_directives can) es
      (All-append IsPlain (mode_directives mode) (transform_directives can)
        (mode_directives-IsPlain mode) (transform_directives-IsPlain can))
      (extras-IsPlain to_lower es h)

append_extras_step :
    (to_lower : Bytes → Bytes) (out : List Bytes) (e : CacheControlDirective) (t : Bytes)
    (es : List CacheControlDirective)
    → header_string to_lower e ≡ (t, none)
    → append_extras to_lower out (e ∷ es) ≡ append_extras to_lower (out ++ t ∷ []) es
unfolding append_extras
append_extras_step to_lower out e t es h = ground (arith, h)

append_extras-text :
    (to_lower : Bytes → Bytes) (out : List Bytes) (es : List CacheControlDirective)
    → All (IsExtra to_lower) es
    → append_extras to_lower out es ≡ (out ++ map text es, none)
unfolding append_extras
append_extras-text to_lower out [] h = rw (append-nil out)
append_extras-text to_lower out (e ∷ es) h =
    append_extras_step to_lower out e (text e) es (header_string-text to_lower e h.0.kept h.0.plain)
    ∙ (append_extras-text to_lower (out ++ text e ∷ []) es h.1
        ∙ ap (λ l. (l, none)) (append_assoc out (text e ∷ []) (map text es)))

set_directives-text :
    (mode : RequestCacheMode) (can : Bool)
    → (if can then (mode_headers mode).0 else (mode_headers mode).0 ++ codes "no-transform" ∷ [])
      ≡ map text (set_directives mode can)
unfolding set_directives mode_directives transform_directives mode_headers
set_directives-text mode can = ground arith

request_headers-text :
    (to_lower : Bytes → Bytes) (rcc : RequestCacheControl)
    → All (IsExtra to_lower) rcc.extras
    → (request_headers to_lower rcc).0
      ≡ map text (set_directives rcc.mode rcc.can_transform ++ rcc.extras)
unfolding request_headers
request_headers-text to_lower rcc h =
    ap (λ q. q.0) (append_extras-text to_lower _ rcc.extras h)
    ∙ ap (λ l. l ++ map text rcc.extras) (set_directives-text rcc.mode rcc.can_transform)
    ∙ sym (map-append text (set_directives rcc.mode rcc.can_transform) rcc.extras)

-- What the loop sees of them.
see_mode : RequestCacheMode → Seen → Seen
see_mode RequestCacheMode.unspecified s = s
see_mode RequestCacheMode.no_cache s = record s { no_cache = true }
see_mode RequestCacheMode.no_store s = record s { no_store = true }
see_mode RequestCacheMode.only_if_cached s = record s { only_if_cached = true }

see_transform : Bool → Seen → Seen
see_transform true s = s
see_transform false s = record s { out = record s.out { can_transform = false } }

see_all-mode :
    (mode : RequestCacheMode) (ds : List CacheControlDirective) (s : Seen)
    → see_all (mode_directives mode ++ ds) s ≡ see_all ds (see_mode mode s)
unfolding see_all see mode_directives see_mode
see_all-mode RequestCacheMode.unspecified ds s = refl
see_all-mode RequestCacheMode.no_cache ds s = refl
see_all-mode RequestCacheMode.no_store ds s = refl
see_all-mode RequestCacheMode.only_if_cached ds s = refl

see_all-transform :
    (can : Bool) (ds : List CacheControlDirective) (s : Seen)
    → see_all (transform_directives can ++ ds) s ≡ see_all ds (see_transform can s)
unfolding see_all see transform_directives see_transform
see_all-transform true ds s = refl
see_all-transform false ds s = refl

see_all-written :
    (mode : RequestCacheMode) (can : Bool) (es : List CacheControlDirective) (s : Seen)
    → All IsUnknown es
    → see_all (set_directives mode can ++ es) s
      ≡ (with_extras es (see_transform can (see_mode mode s)), none)
unfolding set_directives see_all
see_all-written mode can es s h =
    ap (λ l. see_all l s) (append_assoc (mode_directives mode) (transform_directives can) es)
    ∙ see_all-mode mode (transform_directives can ++ es) s
    ∙ see_all-transform can es (see_mode mode s)
    ∙ ap (λ l. see_all l (see_transform can (see_mode mode s))) (sym (append-nil es))
    ∙ see_all-unknown es [] (see_transform can (see_mode mode s)) h

seen_request :
    (mode : RequestCacheMode) (can : Bool) (bs es : List CacheControlDirective)
    → mode_seen (with_extras es (see_transform can (see_mode mode (with_extras bs nothing_seen))))
      ≡ record default_request_cache_control { mode = mode; can_transform = can; extras = bs ++ es }
unfolding with_extras see_transform see_mode
seen_request mode can bs es = ground arith

parse_request-written :
    (mode : RequestCacheMode) (can : Bool) (ss : List Bytes) (es : List CacheControlDirective)
    → All IsUnknown es
    → parse_request (blanks ss ++ (set_directives mode can ++ es)) ≡ (
      record default_request_cache_control {
        mode = mode;
        can_transform = can;
        extras = blanks ss ++ es;
      },
      none,
    )
unfolding parse_request
parse_request-written mode can ss es h =
    let loop =
      see_all-unknown (blanks ss) (set_directives mode can ++ es) nothing_seen (blanks-IsUnknown ss)
      ∙ see_all-written mode can es (with_extras (blanks ss) nothing_seen) h in
    ground (arith, loop, seen_request mode can (blanks ss) es)

-- The directives that a request's cache control writes, its extra ones being of token characters,
-- kept by ToLower and of none of the parser's names, are parsed without an error: to its mode and
-- its permission to transform, to no ages, whatever it had, and to its extra directives behind a
-- blank one for each directive written.
pub parse_request_headers-request_headers :
    (to_lower : Bytes → Bytes) (rcc : RequestCacheControl)
    → All (IsExtra to_lower) rcc.extras
    → parse_request_headers (request_headers to_lower rcc).0
      ≡ some (
        record default_request_cache_control {
          mode = rcc.mode;
          can_transform = rcc.can_transform;
          extras = blanks (request_headers to_lower rcc).0 ++ rcc.extras;
        },
        none,
      )
unfolding parse_request_headers
parse_request_headers-request_headers to_lower rcc h =
    let ds = set_directives rcc.mode rcc.can_transform ++ rcc.extras in
    rw (request_headers-text to_lower rcc h) (
      ground (
        arith,
        parse_directives-text ds (written-IsPlain to_lower rcc.mode rcc.can_transform rcc.extras h),
        parse_request-written rcc.mode rcc.can_transform (map text ds) rcc.extras
            (extras-IsUnknown to_lower rcc.extras h),
      ))
