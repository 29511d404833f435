-- ===== src/Examples/Cache.antt =====
-- The theorems about the cache control (http/cache-control.go) at concrete values.
use jotpot_server.Base.{
  true, ◌≡◌, refl, arith, false, Option, none, some, [], ◌∷◌, ◌++◌, Bytes, codes, All, equal,
}
use jotpot_server.Base.Int.{ℤ, pos, ◌-ℤ◌}
use jotpot_server.Http.Chars.{is_token_char, decode_rune}
use jotpot_server.Http.Quoted.{format_token_or_quoted_string, format_from, rune_starts}
use jotpot_server.Http.Cache.Directive.{CacheControlDirective, blanks, header_string}
use jotpot_server.Http.Cache.Expiry.{ExpiryTime, expiry_max_age, get_max_age}
use jotpot_server.Http.Cache.Expiry.Settled.{IsSettled, IsStale, max_age_and_expires-IsSettled}
use jotpot_server.Http.Cache.Request.{
  RequestCacheControl, RequestCacheMode, default_request_cache_control, request_headers,
}
use jotpot_server.Http.Cache.Request.RoundTrip.{IsExtra}
use jotpot_server.Http.Header.{new_header, get_key, process_values}
use jotpot_server.Http.Cache.Held.{
  Held, cache_control_key, pragma_key, request_cache_control, format_request_cache_control,
  discard_cache_control,
}
use jotpot_server.Http.Cache.Held.Reread.{request_cache_control-format}
use jotpot_server.Http.Cache.Resource.{can_cache, must_revalidate, ResourceCacheControl, headers}
use jotpot_server.Http.Cache.Resource.Parse.{parse_resource_headers}
use jotpot_server.Http.Cache.Resource.Strictness.{IsStricter, HasAge}
use jotpot_server.Http.Cache.Resource.Written.{headers-IsStricter}
use jotpot_server.Examples.Processors.{lowering}
use jotpot_server.Http.Header.Values.{processed}

-- A minute and ten minutes, in nanoseconds.
abbrev minute : ExpiryTime
minute = record { kind = expiry_max_age; max_age = pos 60000000000; expires = pos 0 }

abbrev ten_minutes : ExpiryTime
ten_minutes = record { kind = expiry_max_age; max_age = pos 600000000000; expires = pos 0 }

abbrev shared_page : ResourceCacheControl
shared_page = record {
  public_mode = can_cache;
  private_mode = must_revalidate;
  can_transform = false;
  public_expiry = ten_minutes;
  private_expiry = minute;
  extras = [];
}

abbrev noon : ℤ
noon = pos 63124920000000000000

keep : Bytes → Bytes
keep s = s

no_time : ℤ → Bytes
no_time t = []

unread : Bytes → Option ℤ
unread s = none

shared_page_ages : (HasAge noon ten_minutes) × (HasAge noon minute)
unfolding get_max_age
shared_page_ages = (
  record { age = 600000000000; is_age = refl; below = omega arith },
  record { age = 60000000000; is_age = refl; below = omega arith },
)

headers-IsStricter_example :
    let (after, strings, expires, err) = headers keep no_time noon shared_page in
    (err ≡ none)
    × ((parsed : ResourceCacheControl) × (parse_resource_headers unread (pos 7) strings expires
          ≡ some (parsed, none))
        × IsStricter parsed.public_mode can_cache
        × IsStricter parsed.private_mode must_revalidate
        × (parsed.can_transform ≡ false))
unfolding keep
headers-IsStricter_example =
    headers-IsStricter keep no_time unread noon (pos 7) shared_page (λ s h. refl) (λ e. cc)
      shared_page_ages.0 shared_page_ages.1 refl

abbrev stale_ok : CacheControlDirective
stale_ok = record { name = codes "stale-if-error"; arg = codes "60" }

abbrev reload : RequestCacheControl
reload = record default_request_cache_control {
  mode = RequestCacheMode.no_cache;
  max_age = pos 60000000000;
  extras = stale_ok ∷ [];
}

stale_ok-IsExtra : All (IsExtra keep) (stale_ok ∷ [])
unfolding keep is_token_char
stale_ok-IsExtra = (
  record { kept = refl; plain = record { name_token = refl; arg_token = refl }; unknown = refl },
  tt,
)

apart :
    equal
      (get_key (new_header lowering).processor cache_control_key)
      (get_key (new_header lowering).processor pragma_key)
    ≡ false
unfolding get_key new_header
apart = refl

reload_kept :
    processed (new_header lowering).processor cache_control_key (request_headers keep reload).0
    ≡ (request_headers keep reload).0
unfolding process_values get_key new_header request_headers ◌-ℤ◌ header_string
    format_token_or_quoted_string format_from rune_starts is_token_char decode_rune
reload_kept = refl

abbrev held_reload : Held RequestCacheControl
held_reload = record {
  header = new_header lowering;
  has_cache_control = true;
  cache_control = reload;
}

request_cache_control-format_example :
    let written = (format_request_cache_control keep held_reload).0 in
    request_cache_control (discard_cache_control written)
    ≡ some (
      record {
        header = written.header;
        has_cache_control = true;
        cache_control = record default_request_cache_control {
          mode = RequestCacheMode.no_cache;
          extras = blanks (request_headers keep reload).0 ++ stale_ok ∷ [];
        };
      },
      none,
    )
request_cache_control-format_example =
    request_cache_control-format keep (new_header lowering) reload stale_ok-IsExtra reload_kept
      apart

max_age_and_expires-IsSettled_example : IsSettled noon (pos 7) minute × IsStale noon 60 20 minute
max_age_and_expires-IsSettled_example =
    max_age_and_expires-IsSettled noon (pos 7) 60 20 minute (λ e. cc) (omega arith)
