-- ===== src/Http/Cache/Resource/Ages.antt =====
-- The branches of headers1 (http/cache-control.go) for the public modes other than NoStore.
use jotpot_server.Base.{ℕ, ◌<◌, ◌^◌, ◌≡◌, refl, arith, inl, inr, Bool-cases, [], ◌∷◌, Bytes, ltb}
use jotpot_server.Base.Int.{ℤ, pos, eq_ℤ}
use jotpot_server.Http.Cache.Expiry.{
  ExpiryTime, ExpiryTimeKind, expiry_none, expiry_max_age, expiry_expires, expiry_both, set_max_age,
  get_max_age, max_age_and_expires, make_both_from_max_age, max_age_and_expires_string,
}
use jotpot_server.Http.Cache.Resource.{
  ResourceCacheMode, unspecified, can_cache, must_revalidate, no_cache, no_store,
  ResourceCacheControl, no_cache_headers, must_revalidate_headers, can_cache_headers, both_ages,
  revalidated, with_private_age,
}
use jotpot_server.Http.Cache.Resource.Parse.{modes_seen, with_expiry, do_expiry_stuff}
use jotpot_server.Http.Cache.Resource.Entries.{
  Entry, public_entry, no_cache_entry, no_store_entry, must_revalidate_entry,
  proxy_revalidate_entry, max_age_entry, s_max_age_entry, directive,
}
use jotpot_server.Http.Cache.Resource.Strictness.{leave, IsStricter, HasAge}
use jotpot_server.Http.Cache.Resource.Branches.{
  Tells, by_flags, Branch, told, no_store-Tells, no_cache-Tells,
}
use jotpot_server.Base.Int.{wrap_int64, ◌*ℤ◌}
use jotpot_server.Base.Decimal.{format_uint, format_digits}
use jotpot_server.Http.Message.{format_seconds}

-- A flag whose modes are no less strict, before one age or both.
pub record IsFlag (public private : ResourceCacheMode) (e : Entry) : Type 0 where
  pub one : (n : ℕ) → n < 2 ^ 63 → Tells public private (e ∷ max_age_entry n ∷ [])
  pub two :
      (n m : ℕ)
      → n < 2 ^ 63
      → m < 2 ^ 63
      → Tells public private (e ∷ max_age_entry n ∷ s_max_age_entry m ∷ [])

must_revalidate-IsFlag :
    (public private : ResourceCacheMode)
    → IsStricter must_revalidate private
    → IsFlag public private must_revalidate_entry
unfolding leave modes_seen
must_revalidate-IsFlag public private h = record {
  one = λ n b. by_flags public private _ (tt, (b, tt)) (λ bs. refl) (λ bs. omega arith) (λ bs. h);
  two = λ n m b c.
      by_flags public private _ (tt, (b, (c, tt))) (λ bs. refl) (λ bs. omega arith) (λ bs. h);
}

proxy_revalidate-IsFlag : IsFlag must_revalidate can_cache proxy_revalidate_entry
unfolding leave modes_seen
proxy_revalidate-IsFlag = record {
  one = λ n b. by_flags _ _ _ (tt, (b, tt)) (λ bs. refl) (λ bs. omega arith) (λ bs. omega arith);
  two = λ n m b c.
      by_flags _ _ _ (tt, (b, (c, tt))) (λ bs. refl) (λ bs. omega arith) (λ bs. omega arith);
}

public-IsFlag :
    (private : ResourceCacheMode)
    → IsStricter can_cache private
    → IsFlag can_cache private public_entry
unfolding leave modes_seen
public-IsFlag private h = record {
  one = λ n b. by_flags _ _ _ (tt, (b, tt)) (λ bs. refl) (λ bs. omega arith) (λ bs. h);
  two = λ n m b c. by_flags _ _ _ (tt, (b, (c, tt))) (λ bs. refl) (λ bs. omega arith) (λ bs. h);
}

both_ages-Branch :
    (public private : ResourceCacheMode) (now : ℤ) (rcc : ResourceCacheControl) (e : Entry) (m : ℕ)
    (expires : Bytes)
    → IsFlag public private e
    → m < 2 ^ 63
    → HasAge now rcc.private_expiry
    → Branch public private rcc (with_private_age now (both_ages (directive e) (pos m) expires) rcc)
unfolding with_private_age
both_ages-Branch public private now rcc e m expires f b h =
    rw h.is_age (elim (Bool-cases (eq_ℤ (pos h.age) (pos m))) [
      | inl q ↦
          rw q (told public private rcc _ _ (e ∷ max_age_entry h.age ∷ []) _ (f.one h.age h.below))
      | inr q ↦ rw q (
          told public private rcc _ _ (e ∷ max_age_entry h.age ∷ s_max_age_entry m ∷ []) _
            (f.two h.age m h.below b))
    ])

-- An age of 0 makes a private cache revalidate each time.
stale-Tells :
    (public : ResourceCacheMode) (m : ℕ)
    → m < 2 ^ 63
    → Tells public no_cache (must_revalidate_entry ∷ max_age_entry 0 ∷ s_max_age_entry m ∷ [])
unfolding leave modes_seen with_expiry do_expiry_stuff get_max_age set_max_age wrap_int64 ◌*ℤ◌
stale-Tells public m b = record {
  bounded = (tt, (omega arith, (b, tt)));
  transform = λ bs. refl;
  public_stricter = λ bs. omega arith;
  private_stricter = λ parse_time now expires bs can. omega arith;
}

revalidated-Branch :
    (now : ℤ) (private : ResourceCacheMode) (rcc : ResourceCacheControl)
    → IsStricter must_revalidate private
    → HasAge now rcc.private_expiry
    → Branch no_cache private rcc (with_private_age now revalidated rcc)
unfolding with_private_age leave format_seconds format_uint format_digits
revalidated-Branch now private rcc k h = rw h.is_age (elim (Bool-cases (ltb 0 h.age)) [
  | inl e ↦ rw e (
      told no_cache private rcc _ _
        (must_revalidate_entry ∷ max_age_entry h.age ∷ s_max_age_entry 0 ∷ []) _
        ((must_revalidate-IsFlag no_cache private k).two h.age 0 h.below (omega arith)))
  | inr e ↦ rw e (
      told no_cache private rcc _ _ (no_cache_entry ∷ []) _
        (no_cache-Tells no_cache private (omega (arith, k))))
])

pub no_cache-Branch :
    (now : ℤ) (m : ResourceCacheMode) (rcc : ResourceCacheControl)
    → HasAge now rcc.private_expiry
    → Branch no_cache m rcc (no_cache_headers now m rcc)
unfolding no_cache_headers leave
no_cache-Branch now can_cache rcc h = revalidated-Branch now can_cache rcc (omega arith) h
no_cache-Branch now must_revalidate rcc h =
    revalidated-Branch now must_revalidate rcc (omega arith) h
no_cache-Branch now no_cache rcc h =
    told no_cache no_cache rcc _ _ (no_cache_entry ∷ []) _
      (no_cache-Tells no_cache no_cache (omega arith))
no_cache-Branch now unspecified rcc h =
    told no_cache unspecified rcc _ _ (no_cache_entry ∷ []) _
      (no_cache-Tells no_cache unspecified (omega arith))
no_cache-Branch now no_store rcc h =
    told no_cache no_store rcc _ _ (no_store_entry ∷ []) _ (no_store-Tells no_cache no_store)

pub must_revalidate-Branch :
    (now : ℤ) (private : ResourceCacheMode) (m : ℕ) (expires : Bytes) (rcc : ResourceCacheControl)
    → m < 2 ^ 63
    → HasAge now rcc.private_expiry
    → Branch must_revalidate private rcc (must_revalidate_headers now private (pos m) expires rcc)
unfolding must_revalidate_headers leave format_seconds format_uint format_digits
must_revalidate-Branch now can_cache m expires rcc b h =
    both_ages-Branch must_revalidate can_cache now rcc proxy_revalidate_entry m expires
      proxy_revalidate-IsFlag b h
must_revalidate-Branch now must_revalidate m expires rcc b h =
    both_ages-Branch must_revalidate must_revalidate now rcc must_revalidate_entry m expires
      (must_revalidate-IsFlag _ _ (omega arith)) b h
must_revalidate-Branch now unspecified m expires rcc b h =
    both_ages-Branch must_revalidate unspecified now rcc must_revalidate_entry m expires
      (must_revalidate-IsFlag _ _ (omega arith)) b h
must_revalidate-Branch now no_cache m expires rcc b h = elim (Bool-cases (ltb 0 m)) [
  | inl e ↦ rw e (
      told must_revalidate no_cache rcc _ _
        (must_revalidate_entry ∷ max_age_entry 0 ∷ s_max_age_entry m ∷ []) _
        (stale-Tells must_revalidate m b))
  | inr e ↦ rw e (
      told must_revalidate no_cache rcc _ _ (no_cache_entry ∷ []) _
        (no_cache-Tells must_revalidate no_cache (omega arith)))
]
must_revalidate-Branch now no_store m expires rcc b h =
    told must_revalidate no_store rcc _ _ (no_store_entry ∷ []) _
      (no_store-Tells must_revalidate no_store)

pub can_cache-Branch :
    (now : ℤ) (private : ResourceCacheMode) (m : ℕ) (expires : Bytes) (rcc : ResourceCacheControl)
    → m < 2 ^ 63
    → HasAge now rcc.private_expiry
    → Branch can_cache private rcc (can_cache_headers now private (pos m) expires rcc)
unfolding can_cache_headers leave format_seconds format_uint format_digits
can_cache-Branch now can_cache m expires rcc b h =
    both_ages-Branch can_cache can_cache now rcc public_entry m expires
      (public-IsFlag can_cache (omega arith)) b h
can_cache-Branch now unspecified m expires rcc b h =
    both_ages-Branch can_cache unspecified now rcc public_entry m expires
      (public-IsFlag unspecified (omega arith)) b h
can_cache-Branch now must_revalidate m expires rcc b h =
    both_ages-Branch can_cache must_revalidate now rcc must_revalidate_entry m expires
      (must_revalidate-IsFlag _ _ (omega arith)) b h
can_cache-Branch now no_cache m expires rcc b h =
    told can_cache no_cache rcc _ _
      (must_revalidate_entry ∷ max_age_entry 0 ∷ s_max_age_entry m ∷ []) _
      (stale-Tells can_cache m b)
can_cache-Branch now no_store m expires rcc b h =
    told can_cache no_store rcc _ _ (no_store_entry ∷ []) _ (no_store-Tells can_cache no_store)

pub string_age :
    (format : ℤ → Bytes) (now : ℤ) (et : ExpiryTime) (kind : ExpiryTimeKind)
    → et.kind ≡ kind
    → (max_age_and_expires_string format now et).1 ≡ (get_max_age now et).1
unfolding max_age_and_expires_string max_age_and_expires get_max_age make_both_from_max_age
string_age format now et expiry_none h = rw h refl
string_age format now et expiry_max_age h = rw h refl
string_age format now et expiry_expires h = rw h refl
string_age format now et expiry_both h = rw h refl
