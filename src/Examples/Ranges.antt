-- ===== src/Examples/Ranges.antt =====
-- Runs and theorems of the Range header and of the message's fields at concrete inputs.
use jotpot_server.Base.{◌≡◌, refl, List, [], ◌∷◌, ◌++◌, none, codes, All, arith}
use jotpot_server.Base.Int.{pos, negsuc, wrap_int64, ◌-ℤ◌}
use jotpot_server.Base.Decimal.{parse_uint, parse_digits}
use jotpot_server.Jps.Range.{Range}
use jotpot_server.Http.Header.{new_header, Processor}
use jotpot_server.Http.Ranges.{
  format_ranges, parse_range_header, parsed, unit_prefix, cut, parse_spec, parse_specs,
  parse_suffix, parse_end, with_end, with_number,
}
use jotpot_server.Http.Ranges.Spec.{IsRepresentable, bounded, open_ended, suffix}
use jotpot_server.Http.Ranges.RoundTrip.{parse-format_ranges}
use jotpot_server.Http.Message.{Request, Response, set_cached_age}

abbrev first_ten : Range
first_ten = record { start = pos 0; end = pos 9 }

abbrev others : List Range
others =
    record { start = pos 20; end = negsuc 0 } ∷ record { start = negsuc 4; end = negsuc 0 } ∷ []

All-IsRepresentable : All IsRepresentable (first_ten ∷ others)
All-IsRepresentable = (
  bounded 0 9 (omega arith) (omega arith),
  (open_ended 20 (omega arith), (suffix 4 (omega arith), tt)),
)

parse_two :
    parse_range_header (codes "bytes=0-9,-5")
    ≡ parsed (first_ten ∷ record { start = negsuc 4; end = negsuc 0 } ∷ []) none
unfolding parse_range_header parse_specs parse_spec cut parse_suffix parse_end with_end with_number
    parse_uint parse_digits wrap_int64 ◌-ℤ◌
parse_two = refl

parse-format_ranges_example :
    ((format_ranges (first_ten ∷ others)).1 ≡ none)
    × (parse_range_header (unit_prefix ++ (format_ranges (first_ten ∷ others)).0)
        ≡ parsed (first_ten ∷ others) none)
parse-format_ranges_example = parse-format_ranges first_ten others All-IsRepresentable

abbrev plain : Processor
plain = record { key_transforms = []; values_processors = [] }

abbrev request : Request
request = record { method_str = codes "GET"; header = new_header plain }

no_processors : request.header.processor.values_processors ≡ []
unfolding new_header
no_processors = refl

abbrev cached_response : Response
cached_response =
    set_cached_age (pos 3000000000)
      (record { status_code = 200; status_text = []; header = new_header plain })
