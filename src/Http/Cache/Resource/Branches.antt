-- ===== src/Http/Cache/Resource/Branches.antt =====
-- The entries that each branch of headers1 (http/cache-control.go) writes, and what they tell.
use jotpot_server.Base.{
  ℕ, ◌^◌, ◌<◌, ◌≡◌, refl, arith, inl, inr, Bool, true, Bool-cases, Option, List, [], ◌∷◌, map,
  Bytes, All, ltb,
}
use jotpot_server.Base.Int.{ℤ}
use jotpot_server.Http.Cache.Directive.{CacheControlDirective}
use jotpot_server.Http.Cache.Expiry.{ExpiryTime}
use jotpot_server.Http.Cache.Resource.{
  ResourceCacheMode, unspecified, can_cache, must_revalidate, no_cache, no_store,
  ResourceCacheControl, no_store_headers, with_private_age,
}
use jotpot_server.Http.Cache.Resource.Parse.{
  Seen, nothing_seen, modes_seen, with_expiry, with_modes,
}
use jotpot_server.Http.Cache.Resource.Entries.{
  Entry, private_entry, no_cache_entry, no_store_entry, must_revalidate_entry, max_age_entry,
  directive, see_entries, IsBounded,
}
use jotpot_server.Http.Cache.Resource.Strictness.{leave, IsStricter, HasAge, with_expiry-IsNarrowed}

-- What the parser makes of the entries, behind blank directives.
abbrev pub seen : List CacheControlDirective → List Entry → Seen
seen blank es = see_entries es (record nothing_seen { extras = blank })

-- What the entries `es` tell a cache is no less strict than the two modes.
pub record Tells (public private : ResourceCacheMode) (es : List Entry) : Type 0 where
  pub bounded : All IsBounded es
  pub transform : (bs : List CacheControlDirective) → (seen bs es).can_transform ≡ true
  pub public_stricter :
      (bs : List CacheControlDirective) → IsStricter (modes_seen (seen bs es)).0 public
  pub private_stricter :
      (parse_time : Bytes → Option ℤ) (now : ℤ) (expires : Bytes) (bs : List CacheControlDirective)
      (can : Bool)
      → IsStricter
          (with_expiry parse_time now
            (seen bs es)
            expires
            (record (with_modes (seen bs es)) { can_transform = can })).private_mode
          private

-- It is so already if the modes that the flags give are no less strict.
pub by_flags :
    (public private : ResourceCacheMode) (es : List Entry)
    → All IsBounded es
    → ((bs : List CacheControlDirective) → (seen bs es).can_transform ≡ true)
    → ((bs : List CacheControlDirective) → IsStricter (modes_seen (seen bs es)).0 public)
    → ((bs : List CacheControlDirective) → IsStricter (modes_seen (seen bs es)).1 private)
    → Tells public private es
by_flags public private es b t h k = record {
  bounded = b;
  transform = t;
  public_stricter = h;
  private_stricter = λ parse_time now expires bs can.
      let rcc = record (with_modes (seen bs es)) { can_transform = can } in
      let n =
        with_expiry-IsNarrowed parse_time now (seen bs es).s_max_age (seen bs es).max_age expires
          (seen bs es) rcc refl refl in
      omega (arith, n.stricter, k bs);
}

-- What a branch of `headers1` for the two modes returns.
pub record Branch (public private : ResourceCacheMode) (rcc : ResourceCacheControl)
    (result : ResourceCacheControl × List CacheControlDirective × Bytes) : Type 0 where
  pub es : List Entry
  pub written : result.1 ≡ map directive es
  pub extras_same : result.0.extras ≡ rcc.extras
  pub transform_same : result.0.can_transform ≡ rcc.can_transform
  pub tells : Tells public private es

-- The directives of the entries, whatever the expiry times are by then.
pub told :
    (public private : ResourceCacheMode) (rcc : ResourceCacheControl) (a b : ExpiryTime)
    (es : List Entry) (expires : Bytes)
    → Tells public private es
    → Branch public private rcc
        (record rcc { public_expiry = a; private_expiry = b }, map directive es, expires)
told public private rcc a b es expires h = record {
  es = es;
  written = refl;
  extras_same = refl;
  transform_same = refl;
  tells = h;
}

pub no_store-Tells :
    (public private : ResourceCacheMode) → Tells public private (no_store_entry ∷ [])
unfolding leave modes_seen
no_store-Tells public private =
    by_flags public private _ (tt, tt) (λ bs. refl) (λ bs. omega arith) (λ bs. omega arith)

pub no_cache-Tells :
    (public private : ResourceCacheMode)
    → IsStricter no_cache private
    → Tells public private (no_cache_entry ∷ [])
unfolding leave modes_seen
no_cache-Tells public private h =
    by_flags public private _ (tt, tt) (λ bs. refl) (λ bs. omega arith) (λ bs. h)

private_no_cache-Tells :
    (public private : ResourceCacheMode)
    → IsStricter no_cache private
    → Tells public private (private_entry ∷ no_cache_entry ∷ [])
unfolding leave modes_seen
private_no_cache-Tells public private h =
    by_flags public private _ (tt, (tt, tt)) (λ bs. refl) (λ bs. omega arith) (λ bs. h)

private-Tells :
    (private : ResourceCacheMode) (n : ℕ)
    → n < 2 ^ 63
    → IsStricter unspecified private
    → Tells no_store private (private_entry ∷ max_age_entry n ∷ [])
unfolding leave modes_seen
private-Tells private n b h =
    by_flags no_store private _ (tt, (b, tt)) (λ bs. refl) (λ bs. omega arith) (λ bs. h)

private_must_revalidate-Tells :
    (n : ℕ)
    → n < 2 ^ 63
    → Tells no_store must_revalidate (private_entry ∷ must_revalidate_entry ∷ max_age_entry n ∷ [])
unfolding leave modes_seen
private_must_revalidate-Tells n b =
    by_flags no_store must_revalidate _ (tt, (tt, (b, tt))) (λ bs. refl) (λ bs. omega arith)
      (λ bs. omega arith)

pub no_store-Branch :
    (now : ℤ) (m : ResourceCacheMode) (rcc : ResourceCacheControl)
    → HasAge now rcc.private_expiry
    → Branch no_store m rcc (no_store_headers now m rcc)
unfolding no_store_headers with_private_age leave
no_store-Branch now can_cache rcc h = rw h.is_age (
    told no_store can_cache rcc _ _ (private_entry ∷ max_age_entry h.age ∷ []) _
      (private-Tells can_cache h.age h.below (omega arith)))
no_store-Branch now unspecified rcc h = rw h.is_age (
    told no_store unspecified rcc _ _ (private_entry ∷ max_age_entry h.age ∷ []) _
      (private-Tells unspecified h.age h.below (omega arith)))
no_store-Branch now must_revalidate rcc h = rw h.is_age (elim (Bool-cases (ltb 0 h.age)) [
  | inl e ↦ rw e (
      told no_store must_revalidate rcc _ _
        (private_entry ∷ must_revalidate_entry ∷ max_age_entry h.age ∷ []) _
        (private_must_revalidate-Tells h.age h.below))
  | inr e ↦ rw e (
      told no_store must_revalidate rcc _ _ (private_entry ∷ no_cache_entry ∷ []) _
        (private_no_cache-Tells no_store must_revalidate (omega arith)))
])
no_store-Branch now no_cache rcc h =
    told no_store no_cache rcc _ _ (private_entry ∷ no_cache_entry ∷ []) _
      (private_no_cache-Tells no_store no_cache (omega arith))
no_store-Branch now no_store rcc h =
    told no_store no_store rcc _ _ (no_store_entry ∷ []) _ (no_store-Tells no_store no_store)
