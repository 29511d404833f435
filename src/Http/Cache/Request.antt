-- ===== src/Http/Cache/Request.antt =====
-- The cache control of requests (http/cache-control.go, and the modes of jps/caching.go). Durations
-- are int64 of nanoseconds; -1 stands for none.
pub mod RoundTrip
pub mod Setters
use mathlib.Core.Option
use jotpot_server.Base.{
  ℕ, ◌≡◌, Bool, true, false, Option, none, some, List, [], ◌∷◌, ◌++◌, if◌then◌else◌, Bytes, codes,
  equal,
}
use jotpot_server.Base.Int.{ℤ, pos, negsuc}
use jotpot_server.Base.Decimal.{NumError, parse_int}
use jotpot_server.Http.Quoted.{QuoteError}
use jotpot_server.Http.Cache.Directive.{CacheControlDirective, header_string, parse_directives}
use jotpot_server.Http.Cache.Resource.Parse.{seconds, HeadersError, quote_error, number_error}

pub data RequestCacheMode : Type 0 where
  unspecified no_cache no_store only_if_cached : RequestCacheMode

pub data PragmaNoCache : Type 0 where
  pragma_does_not_matter pragma_no pragma_yes : PragmaNoCache

pub record RequestCacheControl : Type 0 where
  pub mode : RequestCacheMode
  pub max_age : ℤ
  pub min_fresh : ℤ
  pub max_stale : ℤ
  pub can_transform : Bool
  pub extras : List CacheControlDirective

abbrev pub default_request_cache_control : RequestCacheControl
default_request_cache_control = record {
  mode = unspecified;
  max_age = negsuc 0;
  min_fresh = negsuc 0;
  max_stale = negsuc 0;
  can_transform = true;
  extras = [];
}

unfoldable pub mode_headers : RequestCacheMode → List Bytes × PragmaNoCache
mode_headers no_cache = (codes "no-cache" ∷ [], pragma_yes)
mode_headers no_store = (codes "no-store" ∷ [], pragma_no)
mode_headers only_if_cached = (codes "only-if-cached" ∷ [], pragma_no)
mode_headers unspecified = ([], pragma_does_not_matter)

-- The loop over the extra directives, which keeps what was written before an error.
unfoldable pub append_extras :
    (Bytes → Bytes) → List Bytes → List CacheControlDirective → List Bytes × Option QuoteError
append_extras to_lower ds [] = (ds, none)
append_extras to_lower ds (extra ∷ extras) =
    let (s, err) = header_string to_lower extra in
    elim err [ some e ↦ (ds, some e) | none ↦ append_extras to_lower (ds ++ s ∷ []) extras ]

unfoldable pub request_headers :
    (Bytes → Bytes) → RequestCacheControl → List Bytes × PragmaNoCache × Option QuoteError
unfolding mode_headers append_extras
request_headers to_lower rcc =
    let (ds, prag) = mode_headers rcc.mode in
    let ds' = if rcc.can_transform then ds else ds ++ codes "no-transform" ∷ [] in
    let (out, err) = append_extras to_lower ds' rcc.extras in (out, prag, err)

-- The variables of the parser's loop.
pub record Seen : Type 0 where
  pub out : RequestCacheControl
  pub no_store : Bool
  pub no_cache : Bool
  pub only_if_cached : Bool

-- One round of the loop. A number that is out of range is kept beside its error.
unfoldable pub see : CacheControlDirective → Seen → Seen × Option NumError
see d s =
    if equal d.name (codes "no-transform")
    then (record s { out = record s.out { can_transform = false } }, none)
    else if equal d.name (codes "max-age")
    then (let (secs, err) = parse_int d.arg in
        (record s { out = record s.out { max_age = seconds secs } }, err))
    else if equal d.name (codes "min-fresh")
    then (let (secs, err) = parse_int d.arg in
        (record s { out = record s.out { min_fresh = seconds secs } }, err))
    else if equal d.name (codes "max-stale")
    then (let (secs, err) = parse_int d.arg in
        (record s { out = record s.out { max_stale = seconds secs } }, err))
    else if equal d.name (codes "no-cache")
    then (record s { no_cache = true }, none)
    else if equal d.name (codes "no-store")
    then (record s { no_store = true }, none)
    else if equal d.name (codes "only-if-cached")
    then (record s { only_if_cached = true }, none)
    else (record s { out = record s.out { extras = s.out.extras ++ d ∷ [] } }, none)

unfoldable pub see_all : List CacheControlDirective → Seen → Seen × Option NumError
see_all [] s = (s, none)
see_all (d ∷ ds) s =
    let (s', err) = see d s in elim err [ some e ↦ (s', some e) | none ↦ see_all ds s' ]

abbrev pub mode_seen : Seen → RequestCacheControl
mode_seen s =
    if s.only_if_cached
    then record s.out { mode = only_if_cached }
    else if s.no_store
    then record s.out { mode = RequestCacheMode.no_store }
    else if s.no_cache
    then record s.out { mode = RequestCacheMode.no_cache }
    else s.out

abbrev pub nothing_seen : Seen
nothing_seen = record {
  out = default_request_cache_control;
  no_store = false;
  no_cache = false;
  only_if_cached = false;
}

unfoldable pub parse_request : List CacheControlDirective → RequestCacheControl × Option NumError
unfolding see_all see
parse_request ds =
    let (s, err) = see_all ds nothing_seen in
    elim err [ some e ↦ (s.out, some e) | none ↦ (mode_seen s, none) ]

-- The values of Pragma are not looked at. `none` is the panic of a quoted argument.
unfoldable pub parse_request_headers :
    List Bytes → Option (RequestCacheControl × Option HeadersError)
parse_request_headers cache_control = elim (parse_directives cache_control) [
  | none ↦ none
  | some (ds, some e) ↦ some (default_request_cache_control, some (quote_error e))
  | some (ds, none) ↦ let (rcc, err) = parse_request ds in some (rcc, Option.map number_error err)
]
