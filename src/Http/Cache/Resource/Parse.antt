-- ===== src/Http/Cache/Resource/Parse.antt =====
-- ParseResourceCacheControlDirectives (http/cache-control.go).
use jotpot_server.Base.{
  inl, inr, Bool, true, false, Option, none, some, List, [], ◌∷◌, ◌++◌, if◌then◌else◌, Bytes, codes,
  equal,
}
use jotpot_server.Base.Int.{ℤ, pos, eq_ℤ, ◌*ℤ◌, wrap_int64}
use jotpot_server.Base.Decimal.{NumError, parse_uint, parse_int}
use mathlib.Core.Option
use jotpot_server.Http.Message.{second}
use jotpot_server.Http.Quoted.{QuoteError}
use jotpot_server.Http.Cache.Directive.{CacheControlDirective, parse_directives}
use jotpot_server.Http.Cache.Expiry.{ExpiryTime, expiry_none, set_max_age, set_expires, get_max_age}
use jotpot_server.Http.Cache.Resource.{
  ResourceCacheMode, unspecified, can_cache, must_revalidate, no_cache, no_store,
  ResourceCacheControl,
}

-- The variables of the loop.
pub record Seen : Type 0 where
  pub can_transform : Bool
  pub max_age : Option ℤ
  pub s_max_age : Option ℤ
  pub private : Bool
  pub public : Bool
  pub no_cache : Bool
  pub no_store : Bool
  pub must_revalidate : Bool
  pub proxy_revalidate : Bool
  pub extras : List CacheControlDirective

abbrev pub nothing_seen : Seen
nothing_seen = record {
  can_transform = true;
  max_age = none;
  s_max_age = none;
  private = false;
  public = false;
  no_cache = false;
  no_store = false;
  must_revalidate = false;
  proxy_revalidate = false;
  extras = [];
}

-- time.Duration(secs) * time.Second.
abbrev pub seconds : ℤ → ℤ
seconds secs = wrap_int64 (wrap_int64 secs *ℤ pos second)

-- One round of the loop.
unfoldable pub see : CacheControlDirective → Seen → Seen × Option NumError
see d s =
    if equal d.name (codes "no-transform")
    then (record s { can_transform = false }, none)
    else if equal d.name (codes "max-age")
    then (let (secs, err) = parse_int d.arg in
        elim err [
          | some e ↦ (s, some e)
          | none ↦ (record s { max_age = some (seconds secs) }, none)
        ])
    else if equal d.name (codes "s-maxage")
    then (elim (parse_uint 64 d.arg) [
      | inr e ↦ (s, some e)
      | inl secs ↦ (record s { s_max_age = some (seconds (pos secs)) }, none)
    ])
    else if equal d.name (codes "private")
    then (record s { private = true }, none)
    else if equal d.name (codes "public")
    then (record s { public = true }, none)
    else if equal d.name (codes "no-cache")
    then (record s { no_cache = true }, none)
    else if equal d.name (codes "no-store")
    then (record s { no_store = true }, none)
    else if equal d.name (codes "must-revalidate")
    then (record s { must_revalidate = true }, none)
    else if equal d.name (codes "proxy-revalidate")
    then (record s { proxy_revalidate = true }, none)
    else (record s { extras = s.extras ++ d ∷ [] }, none)

unfoldable pub see_all : List CacheControlDirective → Seen → Seen × Option NumError
see_all [] s = (s, none)
see_all (d ∷ ds) s =
    let (s', err) = see d s in elim err [ some e ↦ (s', some e) | none ↦ see_all ds s' ]

-- The modes, the public one first.
unfoldable pub modes_seen : Seen → ResourceCacheMode × ResourceCacheMode
modes_seen s =
    if s.private
    then (
      no_store,
      if s.no_store
          then no_store
          else if s.no_cache
          then no_cache
          else if s.must_revalidate
          then must_revalidate
          else unspecified,
    )
    else if s.no_store
    then (no_store, no_store)
    else if s.no_cache
    then (no_store, no_cache)
    else if s.must_revalidate
    then (no_store, must_revalidate)
    else if s.proxy_revalidate
    then (must_revalidate, if s.public then can_cache else unspecified)
    else if s.public
    then (can_cache, can_cache)
    else (unspecified, unspecified)

abbrev pub no_expiry : ExpiryTime
no_expiry = record { kind = expiry_none; max_age = pos 0; expires = pos 0 }

-- What has been set when the loop ends by an error.
abbrev pub before_modes : Seen → ResourceCacheControl
before_modes s = record {
  public_mode = unspecified;
  private_mode = unspecified;
  can_transform = s.can_transform;
  public_expiry = no_expiry;
  private_expiry = no_expiry;
  extras = s.extras;
}

abbrev pub with_modes : Seen → ResourceCacheControl
with_modes s =
    let (public, private) = modes_seen s in
    record (before_modes s) { public_mode = public; private_mode = private }

-- `doExpiryStuff`: the test is made twice on the private mode, and asks for the age if the mode fits.
abbrev pub private_expired : ℤ → ResourceCacheMode → ResourceCacheControl → ResourceCacheControl
private_expired now must_revalidate rcc =
    let (et, age) = get_max_age now rcc.private_expiry in
    let rcc' = record rcc { private_expiry = et } in
    if eq_ℤ age (pos 0) then record rcc' { private_mode = no_cache } else rcc'
private_expired now _ rcc = rcc

unfoldable pub do_expiry_stuff : ℤ → ResourceCacheControl → ResourceCacheControl
do_expiry_stuff now rcc =
    let rcc' = private_expired now rcc.private_mode rcc in
    private_expired now rcc'.private_mode rcc'

-- The zero ExpiryTime with what ParseTime returned beside an error, which is the zero time; a value
-- without an error is not used.
abbrev pub expires_seen : Option ℤ → ResourceCacheControl → ResourceCacheControl
expires_seen (some t) rcc = rcc
expires_seen none rcc = record rcc { private_expiry = set_expires (pos 0) rcc.private_expiry }

unfoldable pub with_expiry :
    (Bytes → Option ℤ) → ℤ → Seen → Bytes → ResourceCacheControl → ResourceCacheControl
with_expiry parse_time now s expires rcc = elim s.s_max_age [
  | some shared ↦
      let rcc₁ = record rcc { public_expiry = set_max_age shared rcc.public_expiry } in
      do_expiry_stuff now (elim s.max_age [
        | some age ↦ record rcc₁ { private_expiry = set_max_age age rcc₁.private_expiry }
        | none ↦ if equal expires [] then rcc₁ else expires_seen (parse_time expires) rcc₁
      ])
  | none ↦ elim s.max_age [
    | some age ↦ do_expiry_stuff now (record rcc {
      public_expiry = set_max_age age rcc.public_expiry;
      private_expiry = set_max_age age rcc.private_expiry;
    })
    | none ↦ if equal expires [] then rcc else elim (parse_time expires) [
      | some t ↦ rcc
      | none ↦ do_expiry_stuff now (expires_seen none rcc)
    ]
  ]
]

unfoldable pub parse_resource :
    (Bytes → Option ℤ)
    → ℤ
    → List CacheControlDirective
    → Bytes
    → ResourceCacheControl × Option NumError
parse_resource parse_time now ds expires =
    let (s, err) = see_all ds nothing_seen in
    elim err [
      | some e ↦ (before_modes s, some e)
      | none ↦ (with_expiry parse_time now s expires (with_modes s), none)
    ]

pub data HeadersError : Type 0 where
  quote_error : QuoteError → HeadersError
  number_error : NumError → HeadersError

abbrev pub no_control : ResourceCacheControl
no_control = record (before_modes nothing_seen) { can_transform = false }

-- `none` is the panic of a quoted argument.
unfoldable pub parse_resource_headers :
    (Bytes → Option ℤ)
    → ℤ
    → List Bytes
    → Bytes
    → Option (ResourceCacheControl × Option HeadersError)
parse_resource_headers parse_time now cache_control expires =
    elim (parse_directives cache_control) [
      | none ↦ none
      | some (ds, some e) ↦ some (no_control, some (quote_error e))
      | some (ds, none) ↦
          let (rcc, err) = parse_resource parse_time now ds expires in
          some (rcc, Option.map number_error err)
    ]
