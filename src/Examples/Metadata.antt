-- ===== src/Examples/Metadata.antt =====
-- The theorems about the metadata in the header at concrete headers.
use jotpot_server.Base.{◌≡◌, refl, arith, none, some, [], codes}
use jotpot_server.Base.Int.{pos, negsuc, wrap_int64, ◌+ℤ◌, ◌-ℤ◌}
use jotpot_server.Base.Decimal.{parse_uint, parse_digits}
use jotpot_server.Jps.Range.{Range, start_end}
use jotpot_server.Http.Header.{
  Header, new_header, get_key, set_value, set_values, set_values_raw, get_values, get_key_safe,
  get_values_raw_key, process_values,
}
use jotpot_server.Http.Metadata.{
  values_of, size, set_range, content_length, content_range, split_content_range,
}
use jotpot_server.Http.Metadata.Fields.{KeepsKeys, HasRange, set_range-HasRange}
use jotpot_server.Http.Message.{set_alone}
use jotpot_server.Examples.Processors.{lowering, lowering-KeepsLower}

-- A response of 100 bytes.
abbrev hundred : Header
hundred = set_alone content_length (codes "100") (new_header lowering)

hundred-KeepsKeys : KeepsKeys hundred
unfolding get_key set_value set_values new_header
hundred-KeepsKeys = record {
  keeps_lower = lowering-KeepsLower;
  range_length = refl;
  range_encoding = refl;
  length_encoding = refl;
}

empty-KeepsKeys : KeepsKeys (new_header lowering)
unfolding get_key new_header
empty-KeepsKeys = record {
  keeps_lower = lowering-KeepsLower;
  range_length = refl;
  range_encoding = refl;
  length_encoding = refl;
}

hundred-size : size hundred ≡ some (pos 100, none)
unfolding size split_content_range get_values get_key_safe get_key set_value set_values new_header
    set_values_raw get_values_raw_key process_values parse_uint parse_digits ◌-ℤ◌
hundred-size = refl

last_ten : Range
last_ten = record { start = negsuc 9; end = negsuc 0 }

last_ten_of_hundred : start_end last_ten (pos 100) ≡ (pos 90, pos 99)
unfolding start_end last_ten wrap_int64 ◌+ℤ◌
last_ten_of_hundred = refl

set_range-HasRange_example :
    (g : Header) × (set_range last_ten hundred ≡ some (g, none)) × HasRange 90 99 100 g
set_range-HasRange_example =
    set_range-HasRange last_ten 100 90 99 hundred hundred-KeepsKeys hundred-size last_ten_of_hundred
      (omega arith) (omega arith) (omega arith)

no_range : values_of content_range (new_header lowering) ≡ []
unfolding new_header get_values get_key_safe get_values_raw_key get_key
no_range = refl
