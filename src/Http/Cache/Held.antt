-- ===== src/Http/Cache/Held.antt =====
-- The cache control that a request and a response keep beside their header (http/request.go), with no
-- other goroutine at work on it. `none` is the panic of a quoted argument.
pub mod Reread
use mathlib.Core.Option
use jotpot_server.Base.{
  ℕ, Bool, true, false, Option, none, some, List, [], ◌∷◌, if◌then◌else◌, Bytes, equal, codes,
}
use jotpot_server.Base.Int.{ℤ}
use jotpot_server.Http.Header.{Header, get_values, get_value, set_values, add, has}
use jotpot_server.Http.Message.{set_alone, del_alone}
use jotpot_server.Http.Quoted.{QuoteError}
use jotpot_server.Http.Cache.Request.{
  RequestCacheControl, PragmaNoCache, pragma_does_not_matter, pragma_no, pragma_yes,
  default_request_cache_control, request_headers, parse_request_headers,
}
use jotpot_server.Http.Cache.Resource.{ResourceCacheControl, headers}
use jotpot_server.Http.Cache.Resource.Parse.{
  HeadersError, parse_resource_headers, before_modes, nothing_seen,
}

abbrev pub cache_control_key : Bytes
cache_control_key = codes "cache-control"

abbrev pub pragma_key : Bytes
pragma_key = codes "pragma"

abbrev pub expires_key : Bytes
expires_key = codes "expires"

-- The fields that concern the cache control, of a Request and of a Response.
pub record Held (C : Type 0) : Type 0 where
  pub header : Header
  pub has_cache_control : Bool
  pub cache_control : C

-- ParseCacheControl, with what the header's values are parsed to; at an error the mark is not set.
abbrev pub parsed_into :
    {C : Type 0} → Held C → Option (C × Option HeadersError) → Option (Held C × Option HeadersError)
parsed_into r none = none
parsed_into r (some (c, none)) =
    some (record r { cache_control = c; has_cache_control = true }, none)
parsed_into r (some (c, some e)) = some (record r { cache_control = c }, some e)

abbrev pub parsed_request_values : List Bytes → Option (RequestCacheControl × Option HeadersError)
parsed_request_values [] = some (default_request_cache_control, none)
parsed_request_values (v ∷ vs) = parse_request_headers (v ∷ vs)

unfoldable pub parse_request_cache_control :
    Held RequestCacheControl → Option (Held RequestCacheControl × Option HeadersError)
parse_request_cache_control r =
    parsed_into r (parsed_request_values (get_values r.header cache_control_key).1)

-- CacheControl, which parses once.
unfoldable pub request_cache_control :
    Held RequestCacheControl → Option (Held RequestCacheControl × Option HeadersError)
request_cache_control r =
    if r.has_cache_control then some (r, none) else parse_request_cache_control r

unfoldable pub set_pragma : PragmaNoCache → Header → Header
set_pragma pragma_does_not_matter h = h
set_pragma pragma_no h = del_alone pragma_key h
set_pragma pragma_yes h =
    let (h', there) = has pragma_key (codes "no-cache" ∷ []) h in
    if there then h' else add (λ m. m) pragma_key (codes "no-cache") h'

unfoldable pub format_request_cache_control :
    (Bytes → Bytes) → Held RequestCacheControl → Held RequestCacheControl × Option QuoteError
format_request_cache_control to_lower r =
    if r.has_cache_control
    then (let (cc, prag, err) = request_headers to_lower r.cache_control in
        (
          record r { header = set_pragma prag (set_values (λ m. m) cache_control_key cc r.header) },
          err,
        ))
    else (r, none)

unfoldable pub discard_cache_control : {C : Type 0} → Held C → Held C
discard_cache_control r = record r { has_cache_control = false }

abbrev pub parsed_resource_values :
    (Bytes → Option ℤ)
    → ℤ
    → Bytes
    → List Bytes
    → Option (ResourceCacheControl × Option HeadersError)
parsed_resource_values parse_time now expires [] = some (before_modes nothing_seen, none)
parsed_resource_values parse_time now expires (v ∷ vs) =
    parse_resource_headers parse_time now (v ∷ vs) expires

unfoldable pub parse_response_cache_control :
    (Bytes → Option ℤ)
    → ℤ
    → Held ResourceCacheControl
    → Option (Held ResourceCacheControl × Option HeadersError)
parse_response_cache_control parse_time now r = parsed_into r (
    parsed_resource_values parse_time now (get_value r.header expires_key).1
      (get_values r.header cache_control_key).1)

unfoldable pub response_cache_control :
    (Bytes → Option ℤ)
    → ℤ
    → Held ResourceCacheControl
    → Option (Held ResourceCacheControl × Option HeadersError)
response_cache_control parse_time now r =
    if r.has_cache_control then some (r, none) else parse_response_cache_control parse_time now r

-- The getters of the ages may change the cache control that is kept.
unfoldable pub format_response_cache_control :
    (Bytes → Bytes)
    → (ℤ → Bytes)
    → ℤ
    → Held ResourceCacheControl
    → Held ResourceCacheControl × Option QuoteError
format_response_cache_control to_lower format now r =
    if r.has_cache_control
    then (let (c, cc, expires, err) = headers to_lower format now r.cache_control in
        let h = set_values (λ m. m) cache_control_key cc r.header in
        (
          record r {
            cache_control = c;
            header =
                if equal expires []
                then del_alone expires_key h
                else set_alone expires_key expires h;
          },
          err,
        ))
    else (r, none)
