-- ===== src/Http/Message/Fields.antt =====
-- What the methods write to the header, as the methods that read it find it.
use jotpot_server.Base.{
  ◌≡◌, refl, ◌∙◌, ◌⊎◌, none, some, List, [], ◌∷◌, Bytes, codes, All, if◌then◌else◌,
}
use jotpot_server.Base.Int.{pos, ◌*ℤ◌, wrap_int64}
use jotpot_server.Base.Decimal.{err_syntax, parse_uint, parse_digits}
use jotpot_server.Jps.Range.{Range}
use jotpot_server.Http.Header.{Header, get_values, set_value, process_values}
use jotpot_server.Http.Header.Values.{get_values-set_values}
use jotpot_server.Http.Ranges.{panic, parsed, format_ranges}
use jotpot_server.Http.Ranges.Spec.{IsRepresentable}
use jotpot_server.Http.Ranges.RoundTrip.{parse-format_ranges_bare, format_ranges-nonempty}
use jotpot_server.Http.Message.{
  Request, Response, ranges, set_ranges, set_alone, cached_age, max_age, string_of_int, is_empty,
}

get_values-set_alone :
    (key value : Bytes) (h : Header)
    → h.processor.values_processors ≡ []
    → (get_values (set_alone key value h) key).1 ≡ value ∷ []
unfolding set_value process_values
get_values-set_alone key value h e =
    (get_values-set_values (λ m. m) key key (value ∷ []) h).0 ∙ rw (e, process_values) refl

-- A GET request whose ranges were set with SetRanges (at least one, each one that the header can carry,
-- no processors) has no ranges: Ranges panics or returns none. SetRanges leaves out the unit that
-- ParseRangeHeader looks for.
pub ranges-set_ranges :
    (r : Range) (rs : List Range) (q : Request)
    → All IsRepresentable (r ∷ rs)
    → q.method_str ≡ codes "GET"
    → q.header.processor.values_processors ≡ []
    → ((ranges (set_ranges (r ∷ rs) q).0).1 ≡ panic)
      ⊎ ((ranges (set_ranges (r ∷ rs) q).0).1 ≡ parsed [] none)
unfolding ranges set_ranges
ranges-set_ranges r rs q v g p =
    rw (g, format_ranges-nonempty r rs v)
      (rw (get_values-set_alone (codes "Range") (format_ranges (r ∷ rs)).0 q.header p)
        (parse-format_ranges_bare r rs v))

-- The ages of a response as the loop reads them.
max_age_error :
    (vs : List Bytes) → max_age 0 vs 0 ≡ (0, (if is_empty vs then none else some err_syntax))
unfolding max_age string_of_int parse_uint parse_digits
max_age_error [] = refl
max_age_error (v ∷ vs) = refl

-- CachedAge fails for every response that has an Age, whatever its value: it reads the index of the
-- first value, 0, as a character, where it should read the value. Without an Age it returns 0.
pub cached_age_error :
    (r : Response)
    → cached_age r
      ≡ (pos 0, (if is_empty (get_values r.header (codes "Age")).1 then none else some err_syntax))
unfolding cached_age wrap_int64 ◌*ℤ◌
cached_age_error r = rw (max_age_error (get_values r.header (codes "Age")).1) refl
