-- ===== src/Http/Cache/Resource/Written.antt =====
-- What ResourceCacheControl.Headers writes, ParseResourceCacheControlHeaders reads as modes that are
-- no less strict (http/cache-control.go).
use mathlib.Core.List.{append-nil, map-append}
use jotpot_server.Base.{
  ◌≡◌, ◌≢◌, refl, ap, ap₂, sym, ◌∙◌, arith, Bool, true, false, Option, none, some, List, [], ◌∷◌,
  ◌++◌, map, if◌then◌else◌, Bytes, codes, all, All, All-append,
}
use jotpot_server.Base.Int.{ℤ}
use jotpot_server.Http.Cache.Directive.{CacheControlDirective, blanks}
use jotpot_server.Http.Cache.Directive.RoundTrip.{text, header_string-text, parse_directives-text}
use jotpot_server.Http.Cache.Expiry.{ExpiryTime, max_age_and_expires_string}
use jotpot_server.Http.Cache.Resource.{
  ResourceCacheMode, unspecified, can_cache, must_revalidate, no_cache, no_store,
  ResourceCacheControl, headers1, headers2, headers, headers_by_mode, header_strings,
}
use jotpot_server.Http.Cache.Resource.Parse.{
  Seen, nothing_seen, modes_seen, with_modes, with_expiry, see_all, parse_resource,
  parse_resource_headers,
}
use jotpot_server.Http.Cache.Resource.Entries.{
  Entry, no_transform_entry, directive, see_entry, see_entries, IsBounded, see_all-entries,
  see_all-blanks, entries-IsPlain, directive-IsPlain, directive_lower, is_lower,
}
use jotpot_server.Http.Cache.Resource.Strictness.{IsStricter, HasAge, with_expiry-IsNarrowed}
use jotpot_server.Http.Cache.Resource.Branches.{Branch, seen, no_store-Branch}
use jotpot_server.Http.Cache.Resource.Ages.{
  no_cache-Branch, must_revalidate-Branch, can_cache-Branch, string_age,
}

-- Another public expiry time makes no difference to what a branch keeps.
rebase :
    (public private : ResourceCacheMode) (rcc : ResourceCacheControl) (et : ExpiryTime)
    (result : ResourceCacheControl × List CacheControlDirective × Bytes)
    → Branch public private (record rcc { public_expiry = et }) result
    → Branch public private rcc result
rebase public private rcc et result b = record {
  es = b.es;
  written = b.written;
  extras_same = b.extras_same;
  transform_same = b.transform_same;
  tells = b.tells;
}

headers_by_mode-Branch :
    (format : ℤ → Bytes) (now : ℤ) (public : ResourceCacheMode) (rcc : ResourceCacheControl)
    → public ≢ unspecified
    → HasAge now rcc.public_expiry
    → HasAge now rcc.private_expiry
    → Branch public rcc.private_mode rcc (headers_by_mode format now public rcc)
unfolding headers_by_mode
headers_by_mode-Branch format now unspecified rcc n h k = absurd (n refl)
headers_by_mode-Branch format now no_store rcc n h k = no_store-Branch now rcc.private_mode rcc k
headers_by_mode-Branch format now no_cache rcc n h k = no_cache-Branch now rcc.private_mode rcc k
headers_by_mode-Branch format now must_revalidate rcc n h k =
    let (et, age, expires) = max_age_and_expires_string format now rcc.public_expiry in
    let same = string_age format now rcc.public_expiry rcc.public_expiry.kind refl ∙ h.is_age in
    rw same (
      rebase _ _ rcc et _ (
        must_revalidate-Branch now rcc.private_mode h.age expires
          (record rcc { public_expiry = et }) h.below
          (record { age = k.age; is_age = k.is_age; below = k.below })))
headers_by_mode-Branch format now can_cache rcc n h k =
    let (et, age, expires) = max_age_and_expires_string format now rcc.public_expiry in
    let same = string_age format now rcc.public_expiry rcc.public_expiry.kind refl ∙ h.is_age in
    rw same (
      rebase _ _ rcc et _ (
        can_cache-Branch now rcc.private_mode h.age expires (record rcc { public_expiry = et })
          h.below (record { age = k.age; is_age = k.is_age; below = k.below })))

header_strings-entries :
    (to_lower : Bytes → Bytes) (es : List Entry)
    → ((s : Bytes) → all is_lower s ≡ true → to_lower s ≡ s)
    → header_strings to_lower (map directive es) ≡ (map text (map directive es), none)
unfolding header_strings
header_strings-entries to_lower [] h = refl
header_strings-entries to_lower (e ∷ es) h = ground (
  arith,
  header_string-text to_lower (directive e) (h (directive e).name (directive_lower e))
      (directive-IsPlain e),
  header_strings-entries to_lower es h,
)

-- The directive that is written last where the resource must not be transformed.
abbrev with_transform : Bool → List Entry → List Entry
with_transform true es = es
with_transform false es = es ++ no_transform_entry ∷ []

see_entries-append :
    (es fs : List Entry) (s : Seen) → see_entries (es ++ fs) s ≡ see_entries fs (see_entries es s)
see_entries-append [] fs s = refl
see_entries-append (e ∷ es) fs s = see_entries-append es fs (see_entry e s)

written-IsBounded :
    (can : Bool) (es : List Entry) → All IsBounded es → All IsBounded (with_transform can es)
written-IsBounded true es h = h
written-IsBounded false es h = All-append IsBounded es (no_transform_entry ∷ []) h (tt, tt)

-- What is parsed from the written entries.
abbrev parsed_control :
    (Bytes → Option ℤ)
    → ℤ
    → Bytes
    → List CacheControlDirective
    → Bool
    → List Entry
    → ResourceCacheControl
parsed_control parse_time now expires bs can es =
    with_expiry parse_time now (seen bs es) expires
      (record (with_modes (seen bs es)) { can_transform = can })

parse_resource_step :
    (parse_time : Bytes → Option ℤ) (now : ℤ) (expires : Bytes) (ds : List CacheControlDirective)
    (s : Seen)
    → see_all ds nothing_seen ≡ (s, none)
    → parse_resource parse_time now ds expires
      ≡ (with_expiry parse_time now s expires (with_modes s), none)
unfolding parse_resource
parse_resource_step parse_time now expires ds s h = ground (arith, h)

parse_resource-entries :
    (parse_time : Bytes → Option ℤ) (now : ℤ) (expires : Bytes) (ss : List Bytes) (es : List Entry)
    → All IsBounded es
    → parse_resource parse_time now (blanks ss ++ map directive es) expires ≡ (
      with_expiry parse_time now (seen (blanks ss) es) expires (with_modes (seen (blanks ss) es)),
      none,
    )
parse_resource-entries parse_time now expires ss es h =
    parse_resource_step parse_time now expires (blanks ss ++ map directive es) (seen (blanks ss) es)
      (see_all-blanks ss (map directive es) nothing_seen
        ∙ see_all-entries es (record nothing_seen { extras = blanks ss }) h)

with_transform_control :
    (parse_time : Bytes → Option ℤ) (now : ℤ) (expires : Bytes) (bs : List CacheControlDirective)
    (can : Bool) (es : List Entry)
    → (seen bs es).can_transform ≡ true
    → with_expiry parse_time now
        (seen bs (with_transform can es))
        expires
        (with_modes (seen bs (with_transform can es)))
      ≡ parsed_control parse_time now expires bs can es
unfolding with_expiry modes_seen
with_transform_control parse_time now expires bs true es h =
    ap
      (λ b.
        with_expiry parse_time now (seen bs es) expires
          (record (with_modes (seen bs es)) { can_transform = b }))
      h
with_transform_control parse_time now expires bs false es h =
    ap (λ s. with_expiry parse_time now s expires (with_modes s))
      (see_entries-append es (no_transform_entry ∷ []) (record nothing_seen { extras = bs }))

parse_written :
    (parse_time : Bytes → Option ℤ) (now : ℤ) (expires : Bytes) (can : Bool) (es : List Entry)
    → All IsBounded es
    → ((bs : List CacheControlDirective) → (seen bs es).can_transform ≡ true)
    → (bs : List CacheControlDirective) × (parse_resource_headers parse_time now
          (map text (map directive (with_transform can es)))
          expires
        ≡ some (parsed_control parse_time now expires bs can es, none))
unfolding parse_resource_headers
parse_written parse_time now expires can es h t =
    let ws = with_transform can es in
    let ss = map text (map directive ws) in
    (
      blanks ss,
      ground (
        arith,
        parse_directives-text (map directive ws) (entries-IsPlain ws),
        parse_resource-entries parse_time now expires ss ws (written-IsBounded can es h),
        with_transform_control parse_time now expires (blanks ss) can es (t (blanks ss)),
      ),
    )

written_strings :
    (can : Bool) (es : List Entry)
    → (if can
        then map text (map directive es)
        else map text (map directive es) ++ codes "no-transform" ∷ [])
      ≡ map text (map directive (with_transform can es))
written_strings true es = refl
written_strings false es = sym (
    ap (map text) (map-append directive es (no_transform_entry ∷ []))
    ∙ map-append text (map directive es) (directive no_transform_entry ∷ []))

headers-entries :
    (to_lower : Bytes → Bytes) (format : ℤ → Bytes) (now : ℤ) (rcc : ResourceCacheControl)
    (b : Branch rcc.public_mode rcc.private_mode rcc (headers1 format now rcc))
    → rcc.extras ≡ []
    → ((s : Bytes) → all is_lower s ≡ true → to_lower s ≡ s)
    → ((headers to_lower format now rcc).1
        ≡ map text (map directive (with_transform rcc.can_transform b.es)))
      × ((headers to_lower format now rcc).3 ≡ none)
unfolding headers headers2
headers-entries to_lower format now rcc b h k =
    let ds = ap₂ (λ l m. l ++ m) b.written (b.extras_same ∙ h) ∙ append-nil (map directive b.es) in
    ground (
      arith,
      ap (header_strings to_lower) ds ∙ header_strings-entries to_lower b.es k,
      b.transform_same,
      written_strings rcc.can_transform b.es,
    )

-- Whatever the two modes are, but for an unspecified public one: if both expiry times have an age
-- and there are no extra directives, `Headers` has no error, and a parser of what it writes, at any
-- reading of the clock, finds no error, modes that let a public and a private cache do no more than
-- those set, and the same permission to transform. `ToLower` need only keep lower-case names.
pub headers-IsStricter :
    (to_lower : Bytes → Bytes) (format : ℤ → Bytes) (parse_time : Bytes → Option ℤ) (now later : ℤ)
    (rcc : ResourceCacheControl)
    → ((s : Bytes) → all is_lower s ≡ true → to_lower s ≡ s)
    → rcc.public_mode ≢ unspecified
    → HasAge now rcc.public_expiry
    → HasAge now rcc.private_expiry
    → rcc.extras ≡ []
    → let (after, strings, expires, err) = headers to_lower format now rcc in
      (err ≡ none)
      × ((parsed : ResourceCacheControl) × (parse_resource_headers parse_time later strings expires
            ≡ some (parsed, none))
          × IsStricter parsed.public_mode rcc.public_mode
          × IsStricter parsed.private_mode rcc.private_mode
          × (parsed.can_transform ≡ rcc.can_transform))
unfolding headers1
headers-IsStricter to_lower format parse_time now later rcc lower n h k none_extra =
    let b = headers_by_mode-Branch format now rcc.public_mode rcc n h k in
    let out = headers-entries to_lower format now rcc b none_extra lower in
    let expires = (headers to_lower format now rcc).2 in
    let (bs, read) =
      parse_written parse_time later expires rcc.can_transform b.es b.tells.bounded
        b.tells.transform in
    let narrowed =
      with_expiry-IsNarrowed parse_time later (seen bs b.es).s_max_age (seen bs b.es).max_age
        expires (seen bs b.es)
        (record (with_modes (seen bs b.es)) { can_transform = rcc.can_transform }) refl refl in
    (
      out.1,
      (
        parsed_control parse_time later expires bs rcc.can_transform b.es,
        rw out.0 read,
        rw narrowed.public_same (b.tells.public_stricter bs),
        b.tells.private_stricter parse_time later expires bs rcc.can_transform,
        narrowed.transform_same,
      ),
    )
