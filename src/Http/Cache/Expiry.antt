-- ===== src/Http/Cache/Expiry.antt =====
-- Expiry times (http/cache-control.go). A time is the number of nanoseconds since the zero time, and
-- a duration is an int64 of nanoseconds; the reading of the clock, `now`, is a parameter.
pub mod Settled
use jotpot_server.Base.{
  ℕ, ◌+◌, ◌-◌, ◌*◌, ◌/◌, ◌^◌, ◌≡◌, Bool, true, false, not, Option, none, some, Bytes, if◌then◌else◌,
  leb, [],
}
use jotpot_server.Base.Int.{ℤ, pos, negsuc, ◌+ℤ◌, ◌-ℤ◌, is_negative, is_positive, ltb_ℤ}

pub data ExpiryTimeKind : Type 0 where
  expiry_none expiry_max_age expiry_expires expiry_both : ExpiryTimeKind

pub record ExpiryTime : Type 0 where
  pub kind : ExpiryTimeKind
  pub max_age : ℤ
  pub expires : ℤ

-- time.Time{}, which IsZero.
abbrev pub zero_time : ℤ
zero_time = pos 0

-- 8 May 2001, 12:00 UTC, in nanoseconds since the zero time.
abbrev pub past_time : ℤ
past_time = pos 63124920000000000000

unfoldable pub set_max_age : ℤ → ExpiryTime → ExpiryTime
set_max_age age et = record et { max_age = age; kind = expiry_max_age }

unfoldable pub set_expires : ℤ → ExpiryTime → ExpiryTime
set_expires time et = record et { expires = time; kind = expiry_expires }

-- Time.Sub, which saturates.
unfoldable pub time_sub : ℤ → ℤ → ℤ
time_sub t u =
    let d = t -ℤ u in
    if ltb_ℤ (pos (2 ^ 63 - 1)) d
    then pos (2 ^ 63 - 1)
    else if ltb_ℤ d (negsuc (2 ^ 63 - 1))
    then negsuc (2 ^ 63 - 1)
    else d

unfoldable pub make_both_from_expires : ℤ → ExpiryTime → ExpiryTime
make_both_from_expires now et =
    let s = time_sub now et.expires in
    record et { max_age = if is_negative s then pos 0 else s; kind = expiry_both }

unfoldable pub make_both_from_max_age : ℤ → ExpiryTime → ExpiryTime
make_both_from_max_age now et = record et {
  expires =
      if is_negative et.max_age
      then zero_time
      else if is_positive et.max_age
      then now +ℤ et.max_age
      else past_time;
  kind = expiry_both;
}

-- What a getter leaves, with what it returns; the kind is passed to be matched on.
abbrev pub age_by_kind : ℤ → ExpiryTimeKind → ExpiryTime → ExpiryTime × ℤ
age_by_kind now expiry_both et = (et, et.max_age)
age_by_kind now expiry_max_age et = (et, et.max_age)
age_by_kind now expiry_expires et = let et' = make_both_from_expires now et in (et', et'.max_age)
age_by_kind now expiry_none et = (et, negsuc 0)

unfoldable pub get_max_age : ℤ → ExpiryTime → ExpiryTime × ℤ
get_max_age now et = age_by_kind now et.kind et

abbrev pub expires_by_kind : ℤ → ExpiryTimeKind → ExpiryTime → ExpiryTime × ℤ × Bool
expires_by_kind now expiry_both et = (et, et.expires, not (is_negative et.max_age))
expires_by_kind now expiry_expires et = (et, et.expires, true)
expires_by_kind now expiry_max_age et =
    let et' = make_both_from_max_age now et in (et', et'.expires, not (is_negative et'.max_age))
expires_by_kind now expiry_none et = (et, zero_time, false)

unfoldable pub get_expires : ℤ → ExpiryTime → ExpiryTime × ℤ × Bool
get_expires now et = expires_by_kind now et.kind et

abbrev pub both_by_kind : ℤ → ExpiryTimeKind → ExpiryTime → ExpiryTime × ℤ × ℤ
both_by_kind now expiry_both et = (et, et.max_age, et.expires)
both_by_kind now expiry_max_age et =
    let et' = make_both_from_max_age now et in (et', et'.max_age, et'.expires)
both_by_kind now expiry_expires et =
    let et' = make_both_from_expires now et in (et', et'.max_age, et'.expires)
both_by_kind now expiry_none et = (et, negsuc 0, zero_time)

unfoldable pub max_age_and_expires : ℤ → ExpiryTime → ExpiryTime × ℤ × ℤ
max_age_and_expires now et = both_by_kind now et.kind et

-- FormatTime is a parameter of these two.
unfoldable pub expires_string : (ℤ → Bytes) → ℤ → ExpiryTime → ExpiryTime × Bytes
expires_string format now et =
    let (et', t, ok) = get_expires now et in (et', (if ok then format t else []))

unfoldable pub max_age_and_expires_string : (ℤ → Bytes) → ℤ → ExpiryTime → ExpiryTime × ℤ × Bytes
max_age_and_expires_string format now et =
    let (et', age, t) = max_age_and_expires now et in
    (et', age, (if is_negative age then [] else format t))
