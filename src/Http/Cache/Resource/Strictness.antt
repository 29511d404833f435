-- ===== src/Http/Cache/Resource/Strictness.antt =====
-- How strict the modes of a resource's cache control are, and that the ages which a parser reads
-- make them no less strict.
use jotpot_server.Base.{
  ℕ, ◌^◌, ◌≤◌, ◌<◌, ◌≡◌, refl, ◌∙◌, arith, inl, inr, Bool-cases, Option, none, some, [], Bytes,
  equal, Option-cases,
}
use jotpot_server.Base.Int.{ℤ, pos, eq_ℤ}
use jotpot_server.Http.Cache.Expiry.{ExpiryTime, get_max_age}
use jotpot_server.Http.Cache.Resource.{
  ResourceCacheMode, unspecified, can_cache, must_revalidate, no_cache, no_store,
  ResourceCacheControl,
}
use jotpot_server.Http.Cache.Resource.Parse.{Seen, with_expiry, private_expired, do_expiry_stuff}

-- How much a mode lets a cache do; an unspecified mode leaves it to the cache.
unfoldable pub leave : ResourceCacheMode → ℕ
leave no_store = 0
leave no_cache = 1
leave must_revalidate = 2
leave can_cache = 3
leave unspecified = 3

-- A mode allows no more than another one.
abbrev pub IsStricter : ResourceCacheMode → ResourceCacheMode → Type 0
IsStricter m n = leave m ≤ leave n

-- The expiry time has an age, which is an int64.
pub record HasAge (now : ℤ) (et : ExpiryTime) : Type 0 where
  pub age : ℕ
  pub is_age : (get_max_age now et).1 ≡ pos age
  pub below : age < 2 ^ 63

-- Only the private mode has changed, to one that is no less strict, and the expiry times.
pub record IsNarrowed (after before : ResourceCacheControl) : Type 0 where
  pub stricter : IsStricter after.private_mode before.private_mode
  pub public_same : after.public_mode ≡ before.public_mode
  pub transform_same : after.can_transform ≡ before.can_transform

IsNarrowed-refl : (rcc : ResourceCacheControl) → IsNarrowed rcc rcc
IsNarrowed-refl rcc = record { stricter = omega arith; public_same = refl; transform_same = refl }

IsNarrowed-trans : (a b c : ResourceCacheControl) → IsNarrowed a b → IsNarrowed b c → IsNarrowed a c
IsNarrowed-trans a b c h k = record {
  stricter = omega (arith, h.stricter, k.stricter);
  public_same = h.public_same ∙ k.public_same;
  transform_same = h.transform_same ∙ k.transform_same;
}

private_expired-IsNarrowed :
    (now : ℤ) (m : ResourceCacheMode) (rcc : ResourceCacheControl)
    → rcc.private_mode ≡ m
    → IsNarrowed (private_expired now m rcc) rcc
unfolding leave
private_expired-IsNarrowed now no_store rcc h = IsNarrowed-refl rcc
private_expired-IsNarrowed now no_cache rcc h = IsNarrowed-refl rcc
private_expired-IsNarrowed now can_cache rcc h = IsNarrowed-refl rcc
private_expired-IsNarrowed now unspecified rcc h = IsNarrowed-refl rcc
private_expired-IsNarrowed now must_revalidate rcc h =
    elim (Bool-cases (eq_ℤ (get_max_age now rcc.private_expiry).1 (pos 0))) [
      | inl e ↦
          rw e (record { stricter = rw h (omega arith); public_same = refl; transform_same = refl })
      | inr e ↦ rw e (record { stricter = omega arith; public_same = refl; transform_same = refl })
    ]

do_expiry_stuff-IsNarrowed :
    (now : ℤ) (rcc : ResourceCacheControl) → IsNarrowed (do_expiry_stuff now rcc) rcc
unfolding do_expiry_stuff
do_expiry_stuff-IsNarrowed now rcc =
    let rcc' = private_expired now rcc.private_mode rcc in
    IsNarrowed-trans (private_expired now rcc'.private_mode rcc') rcc' rcc
      (private_expired-IsNarrowed now rcc'.private_mode rcc' refl)
      (private_expired-IsNarrowed now rcc.private_mode rcc refl)

-- Expiry times alone have changed.
expiries-IsNarrowed :
    (rcc : ResourceCacheControl) (public_et private_et : ExpiryTime)
    → IsNarrowed (record rcc { public_expiry = public_et; private_expiry = private_et }) rcc
expiries-IsNarrowed rcc a b = record {
  stricter = omega arith;
  public_same = refl;
  transform_same = refl;
}

expired-IsNarrowed :
    (now : ℤ) (rcc : ResourceCacheControl) (public_et private_et : ExpiryTime)
    → IsNarrowed
        (do_expiry_stuff now
          (record rcc { public_expiry = public_et; private_expiry = private_et }))
        rcc
expired-IsNarrowed now rcc a b =
    let rcc' = record rcc { public_expiry = a; private_expiry = b } in
    IsNarrowed-trans (do_expiry_stuff now rcc') rcc' rcc (do_expiry_stuff-IsNarrowed now rcc')
      (expiries-IsNarrowed rcc a b)

-- What the ages and the Expires header add to the modes makes them no less strict.
pub with_expiry-IsNarrowed :
    (parse_time : Bytes → Option ℤ) (now : ℤ) (shared age : Option ℤ) (expires : Bytes) (s : Seen)
    (rcc : ResourceCacheControl)
    → s.s_max_age ≡ shared
    → s.max_age ≡ age
    → IsNarrowed (with_expiry parse_time now s expires rcc) rcc
unfolding with_expiry
with_expiry-IsNarrowed parse_time now (some shared) (some age) expires s rcc h k =
    rw (with_expiry, h, k) (expired-IsNarrowed now rcc _ _)
with_expiry-IsNarrowed parse_time now none (some age) expires s rcc h k =
    rw (with_expiry, h, k) (expired-IsNarrowed now rcc _ _)
with_expiry-IsNarrowed parse_time now (some shared) none expires s rcc h k =
    rw (with_expiry, h, k)
      (elim (Bool-cases (equal expires [])) [
        | inl e ↦ rw e (expired-IsNarrowed now rcc _ _)
        | inr e ↦ rw e (elim (Option-cases (parse_time expires)) [
          | inl o ↦ rw o (expired-IsNarrowed now rcc _ _)
          | inr (t, o) ↦ rw o (expired-IsNarrowed now rcc _ _)
        ])
      ])
with_expiry-IsNarrowed parse_time now none none expires s rcc h k =
    rw (with_expiry, h, k)
      (elim (Bool-cases (equal expires [])) [
        | inl e ↦ rw e (IsNarrowed-refl rcc)
        | inr e ↦ rw e (elim (Option-cases (parse_time expires)) [
          | inl o ↦ rw o (expired-IsNarrowed now rcc _ _)
          | inr (t, o) ↦ rw o (IsNarrowed-refl rcc)
        ])
      ])
