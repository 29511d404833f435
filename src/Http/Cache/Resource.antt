-- ===== src/Http/Cache/Resource.antt =====
-- The cache control of responses (http/cache-control.go, and the modes of jps/caching.go). The clock,
-- FormatTime, ParseTime and strings.ToLower are parameters; the five modes are the only values.
pub mod Parse
pub mod Setters
pub mod Entries
pub mod Strictness
pub mod Branches
pub mod Ages
pub mod Written
use jotpot_server.Base.{
  ℕ, ◌+◌, ◌≡◌, Bool, true, false, not, Option, none, some, List, [], ◌∷◌, ◌++◌, if◌then◌else◌,
  Bytes, codes, equal,
}
use jotpot_server.Base.Int.{ℤ, pos, negsuc, is_negative, is_positive, eq_ℤ}
use jotpot_server.Http.Message.{format_seconds}
use jotpot_server.Http.Quoted.{QuoteError}
use jotpot_server.Http.Cache.Directive.{CacheControlDirective, header_string}
use jotpot_server.Http.Cache.Expiry.{
  ExpiryTime, expiry_none, set_max_age, set_expires, get_max_age, get_expires,
  max_age_and_expires_string,
}

pub data ResourceCacheMode : Type 0 where
  unspecified can_cache must_revalidate no_cache no_store : ResourceCacheMode

pub record ResourceCacheControl : Type 0 where
  pub public_mode : ResourceCacheMode
  pub private_mode : ResourceCacheMode
  pub can_transform : Bool
  pub public_expiry : ExpiryTime
  pub private_expiry : ExpiryTime
  pub extras : List CacheControlDirective

-- A directive without an argument.
abbrev pub word : Bytes → CacheControlDirective
word name = record { name = name; arg = [] }

abbrev pub dir_no_store : CacheControlDirective
dir_no_store = word (codes "no-store")

abbrev pub dir_no_cache : CacheControlDirective
dir_no_cache = word (codes "no-cache")

abbrev pub dir_private : CacheControlDirective
dir_private = word (codes "private")

abbrev pub dir_public : CacheControlDirective
dir_public = word (codes "public")

abbrev pub dir_must_revalidate : CacheControlDirective
dir_must_revalidate = word (codes "must-revalidate")

abbrev pub dir_proxy_revalidate : CacheControlDirective
dir_proxy_revalidate = word (codes "proxy-revalidate")

abbrev pub dir_s_max_age_0 : CacheControlDirective
dir_s_max_age_0 = record { name = codes "s-maxage"; arg = codes "0" }

abbrev pub dir_max_age_0 : CacheControlDirective
dir_max_age_0 = record { name = codes "max-age"; arg = codes "0" }

abbrev pub dir_max_age : ℤ → CacheControlDirective
dir_max_age d = record { name = codes "max-age"; arg = format_seconds d }

abbrev pub dir_s_max_age : ℤ → CacheControlDirective
dir_s_max_age d = record { name = codes "s-maxage"; arg = format_seconds d }

abbrev pub past_time_str : Bytes
past_time_str = codes "Tue, 08 May 2001 12:00:00 GMT"

-- The directives and the value of Expires.
abbrev pub HeaderValues : Type 0
HeaderValues = List CacheControlDirective × Bytes

abbrev pub WithAge : Type 0
WithAge = ℤ → HeaderValues

-- The private age is asked for, which may set the expiry time's other half.
unfoldable pub with_private_age :
    ℤ → WithAge → ResourceCacheControl → ResourceCacheControl × List CacheControlDirective × Bytes
with_private_age now next rcc =
    let (et, age) = get_max_age now rcc.private_expiry in
    let (ds, expires) = next age in (record rcc { private_expiry = et }, ds, expires)

-- The cases of the private mode where the public mode is NoStore.
unfoldable pub no_store_headers :
    ℤ
    → ResourceCacheMode
    → ResourceCacheControl
    → ResourceCacheControl × List CacheControlDirective × Bytes
unfolding with_private_age
no_store_headers now can_cache rcc =
    with_private_age now
      (λ age.
        if is_negative age
        then (dir_private ∷ [], past_time_str)
        else (dir_private ∷ dir_max_age age ∷ [], past_time_str))
      rcc
no_store_headers now unspecified rcc =
    with_private_age now
      (λ age.
        if is_negative age
        then (dir_private ∷ [], past_time_str)
        else (dir_private ∷ dir_max_age age ∷ [], past_time_str))
      rcc
no_store_headers now must_revalidate rcc =
    with_private_age now
      (λ age.
        if is_positive age
        then (dir_private ∷ dir_must_revalidate ∷ dir_max_age age ∷ [], past_time_str)
        else if is_negative age
        then (dir_private ∷ [], past_time_str)
        else (dir_private ∷ dir_no_cache ∷ [], past_time_str))
      rcc
no_store_headers now no_cache rcc = (rcc, dir_private ∷ dir_no_cache ∷ [], past_time_str)
no_store_headers now no_store rcc = (rcc, dir_no_store ∷ [], past_time_str)

abbrev pub revalidated : WithAge
revalidated age =
    if is_positive age
    then (dir_must_revalidate ∷ dir_max_age age ∷ dir_s_max_age_0 ∷ [], past_time_str)
    else if is_negative age
    then (dir_must_revalidate ∷ dir_s_max_age_0 ∷ [], past_time_str)
    else (dir_no_cache ∷ [], past_time_str)

unfoldable pub no_cache_headers :
    ℤ
    → ResourceCacheMode
    → ResourceCacheControl
    → ResourceCacheControl × List CacheControlDirective × Bytes
unfolding with_private_age
no_cache_headers now can_cache rcc = with_private_age now revalidated rcc
no_cache_headers now must_revalidate rcc = with_private_age now revalidated rcc
no_cache_headers now no_cache rcc = (rcc, dir_no_cache ∷ [], past_time_str)
no_cache_headers now unspecified rcc = (rcc, dir_no_cache ∷ [], past_time_str)
no_cache_headers now no_store rcc = (rcc, dir_no_store ∷ [], past_time_str)

-- One directive before the ages, of which the shared one is left out if both are equal.
abbrev pub both_ages : CacheControlDirective → ℤ → Bytes → WithAge
both_ages d public_age expires private_age =
    if eq_ℤ private_age public_age
    then (d ∷ dir_max_age private_age ∷ [], expires)
    else (d ∷ dir_max_age private_age ∷ dir_s_max_age public_age ∷ [], expires)

unfoldable pub must_revalidate_headers :
    ℤ
    → ResourceCacheMode
    → ℤ
    → Bytes
    → ResourceCacheControl
    → ResourceCacheControl × List CacheControlDirective × Bytes
unfolding with_private_age
must_revalidate_headers now can_cache age expires rcc =
    with_private_age now (both_ages dir_proxy_revalidate age expires) rcc
must_revalidate_headers now must_revalidate age expires rcc =
    with_private_age now (both_ages dir_must_revalidate age expires) rcc
must_revalidate_headers now unspecified age expires rcc =
    with_private_age now (both_ages dir_must_revalidate age expires) rcc
must_revalidate_headers now no_cache age expires rcc =
    if is_positive age
    then (rcc, dir_must_revalidate ∷ dir_max_age_0 ∷ dir_s_max_age age ∷ [], past_time_str)
    else if is_negative age
    then (rcc, [], [])
    else (rcc, dir_no_cache ∷ [], past_time_str)
must_revalidate_headers now no_store age expires rcc = (rcc, dir_no_store ∷ [], past_time_str)

unfoldable pub can_cache_headers :
    ℤ
    → ResourceCacheMode
    → ℤ
    → Bytes
    → ResourceCacheControl
    → ResourceCacheControl × List CacheControlDirective × Bytes
unfolding with_private_age
can_cache_headers now can_cache age expires rcc =
    with_private_age now (both_ages dir_public age expires) rcc
can_cache_headers now unspecified age expires rcc =
    with_private_age now (both_ages dir_public age expires) rcc
can_cache_headers now must_revalidate age expires rcc =
    with_private_age now (both_ages dir_must_revalidate age expires) rcc
can_cache_headers now no_cache age expires rcc =
    (rcc, dir_must_revalidate ∷ dir_max_age_0 ∷ dir_s_max_age age ∷ [], past_time_str)
can_cache_headers now no_store age expires rcc = (rcc, dir_no_store ∷ [], past_time_str)

-- `headers1` by the public mode.
unfoldable pub headers_by_mode :
    (ℤ → Bytes)
    → ℤ
    → ResourceCacheMode
    → ResourceCacheControl
    → ResourceCacheControl × List CacheControlDirective × Bytes
unfolding no_store_headers no_cache_headers must_revalidate_headers can_cache_headers
headers_by_mode format now no_store rcc = no_store_headers now rcc.private_mode rcc
headers_by_mode format now no_cache rcc = no_cache_headers now rcc.private_mode rcc
headers_by_mode format now must_revalidate rcc =
    let (et, age, expires) = max_age_and_expires_string format now rcc.public_expiry in
    must_revalidate_headers now rcc.private_mode age expires (record rcc { public_expiry = et })
headers_by_mode format now can_cache rcc =
    let (et, age, expires) = max_age_and_expires_string format now rcc.public_expiry in
    can_cache_headers now rcc.private_mode age expires (record rcc { public_expiry = et })
headers_by_mode format now unspecified rcc = (rcc, [], [])

unfoldable pub headers1 :
    (ℤ → Bytes)
    → ℤ
    → ResourceCacheControl
    → ResourceCacheControl × List CacheControlDirective × Bytes
unfolding headers_by_mode
headers1 format now rcc = headers_by_mode format now rcc.public_mode rcc

unfoldable pub headers2 :
    (ℤ → Bytes)
    → ℤ
    → ResourceCacheControl
    → ResourceCacheControl × List CacheControlDirective × Bytes
headers2 format now rcc =
    let (rcc', ds, expires) = headers1 format now rcc in (rcc', ds ++ rcc'.extras, expires)

-- The loop of `Headers`: all directives, or the first error.
unfoldable pub header_strings :
    (Bytes → Bytes) → List CacheControlDirective → List Bytes × Option QuoteError
header_strings to_lower [] = ([], none)
header_strings to_lower (d ∷ ds) =
    let (s, err) = header_string to_lower d in
    let (ss, errs) = header_strings to_lower ds in
    elim err [
      | some e ↦ ([], some e)
      | none ↦ elim errs [ some e ↦ ([], some e) | none ↦ (s ∷ ss, none) ]
    ]

unfoldable pub headers :
    (Bytes → Bytes)
    → (ℤ → Bytes)
    → ℤ
    → ResourceCacheControl
    → ResourceCacheControl × List Bytes × Bytes × Option QuoteError
headers to_lower format now rcc =
    let (rcc', ds, expires) = headers2 format now rcc in
    let (sds, err) = header_strings to_lower ds in
    elim err [
      | some e ↦ (rcc', [], [], some e)
      | none ↦ (
        rcc',
        (if rcc'.can_transform then sds else sds ++ codes "no-transform" ∷ []),
        expires,
        none,
      )
    ]
