-- ===== src/Http/Cache/Expiry/Settled.antt =====
-- What the getters of an expiry time return, and that they settle it.
use jotpot_server.Base.{
  ℕ, zero, suc, ◌^◌, ◌<◌, ◌≡◌, refl, arith, true, ltb, not, ◌≢◌, if◌then◌else◌,
}
use jotpot_server.Base.Int.{
  ℤ, pos, negsuc, ◌+ℤ◌, ◌-ℤ◌, is_negative, ◌≤ℤ◌, +ℤ_parts, -ℤ_parts, eq_of_parts,
}
use jotpot_server.Http.Cache.Expiry.{
  ExpiryTime, ExpiryTimeKind, expiry_none, expiry_max_age, expiry_expires, expiry_both, set_max_age,
  set_expires, get_max_age, get_expires, max_age_and_expires, make_both_from_expires,
  make_both_from_max_age, time_sub,
}

-- What is asked for is now fixed, and what the getters return at the first reading of the clock.
abbrev pub IsSettled : ℤ → ℤ → ExpiryTime → Type 0
IsSettled now later et =
    let (et', age, t) = max_age_and_expires now et in
    (get_max_age later et' ≡ (et', age))
    × (get_expires later et' ≡ (et', t, not (is_negative age)))
    × (max_age_and_expires later et' ≡ (et', age, t))
    × ((get_max_age now et).1 ≡ age)
    × ((get_expires now et).1 ≡ t)

settled :
    (now later : ℤ) (kind : ExpiryTimeKind) (age t : ℤ)
    → kind ≢ expiry_none
    → IsSettled now later (record { kind = kind; max_age = age; expires = t })
unfolding max_age_and_expires get_max_age get_expires make_both_from_expires make_both_from_max_age
settled now later expiry_none age t h = absurd (h refl)
settled now later expiry_max_age age t h = (refl, refl, refl, refl, refl)
settled now later expiry_expires age t h = (refl, refl, refl, refl, refl)
settled now later expiry_both age t h = (refl, refl, refl, refl, refl)

-- For a max age of d that was set and asked for at `now`, what `MaxAge` gives e later, and how long it
-- then is to the expiry time that was given.
abbrev pub IsStale : ℤ → ℕ → ℕ → ExpiryTime → Type 0
IsStale now d e et =
    let (et', age, t) = max_age_and_expires now (set_max_age (pos d) et) in
    ((get_max_age (now +ℤ pos e) et').1 ≡ pos d) × (t -ℤ (now +ℤ pos e) ≡ pos d -ℤ pos e)

time_left : (now : ℤ) (d e : ℕ) → (now +ℤ pos d) -ℤ (now +ℤ pos e) ≡ pos d -ℤ pos e
time_left now d e = eq_of_parts ((now +ℤ pos d) -ℤ (now +ℤ pos e)) (pos d -ℤ pos e) (
    omega (
      arith,
      -ℤ_parts (now +ℤ pos d) (now +ℤ pos e),
      -ℤ_parts (pos d) (pos e),
      +ℤ_parts now (pos d),
      +ℤ_parts now (pos e),
    ))

stale : (now : ℤ) (d e : ℕ) (et : ExpiryTime) → 0 < d → IsStale now d e et
unfolding max_age_and_expires get_max_age set_max_age make_both_from_max_age
stale now zero e et h = ground arith
stale now (suc d) e et h =
    let positive : ltb 0 (suc d) ≡ true = ground arith in
    (refl, rw positive (time_left now (suc d) e))

-- Once `MaxAgeAndExpires` has been asked for a time that was set, all three getters give at every
-- later reading of the clock what it gave, and it gave what each of the others would have. So
-- `MaxAge` does not give the time that is left until expiry, as its comment says: a max age of d > 0
-- that was set and asked for is still given as d at a reading of the clock that is e later, when the
-- expiry time that was given is d - e away.
pub max_age_and_expires-IsSettled :
    (now later : ℤ) (d e : ℕ) (et : ExpiryTime)
    → et.kind ≢ expiry_none
    → 0 < d
    → IsSettled now later et × IsStale now d e et
max_age_and_expires-IsSettled now later d e et h k =
    (settled now later et.kind et.max_age et.expires h, stale now d e et k)

time_sub_future : (now t : ℤ) → now ≤ℤ t → time_sub now t ≤ℤ pos 0
unfolding time_sub
time_sub_future now t h = ground (arith, -ℤ_parts now t)

clamped_low : (z : ℤ) → z ≤ℤ pos 0 → (if is_negative z then pos 0 else z) ≡ pos 0
clamped_low (pos n) h = ground (arith, h)
clamped_low (negsuc n) h = refl

not_before : (now : ℤ) (d : ℕ) → now ≤ℤ (now +ℤ pos d)
not_before now d = ground (arith, +ℤ_parts now (pos d))

time_since : (now : ℤ) (d : ℕ) → now -ℤ (now -ℤ pos d) ≡ pos d
time_since now d =
    eq_of_parts (now -ℤ (now -ℤ pos d)) (pos d)
      (ground (arith, -ℤ_parts now (pos d), -ℤ_parts now (now -ℤ pos d)))

time_sub_since : (now : ℤ) (d : ℕ) → d < 2 ^ 63 → time_sub now (now -ℤ pos d) ≡ pos d
unfolding time_sub
time_sub_since now d h = rw (time_since now d) (ground (arith, h))

-- For a duration d of an int64: what is set to expire in d has the max age 0, as if it expired now;
-- and what expired d ago has the max age d.
pub get_max_age-set_expires :
    (now : ℤ) (d : ℕ) (et : ExpiryTime)
    → d < 2 ^ 63
    → ((get_max_age now (set_expires (now +ℤ pos d) et)).1 ≡ pos 0)
      × ((get_max_age now (set_expires (now -ℤ pos d) et)).1 ≡ pos d)
unfolding get_max_age set_expires make_both_from_expires
get_max_age-set_expires now d et h = (
  clamped_low (time_sub now (now +ℤ pos d)) (time_sub_future now (now +ℤ pos d) (not_before now d)),
  rw (time_sub_since now d h),
)
