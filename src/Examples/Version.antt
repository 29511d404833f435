-- ===== src/Examples/Version.antt =====
-- Runs and theorems of the protocol versions and methods at concrete inputs.
use jotpot_server.Base.{◌≡◌, refl, arith, some, none, codes}
use jotpot_server.Base.Decimal.{parse_uint, parse_digits}
use jotpot_server.Http.Ranges.{cut}
use jotpot_server.Http.Version.{
  version, format_version, parse_http_version, parse_version, known_version, parse_numbers,
  err_no_dot,
}
use jotpot_server.Http.Version.RoundTrip.{parse-format_version}

parse_http_version-short : parse_http_version (codes "HTTP/2") ≡ (version 0 0, some err_no_dot)
unfolding parse_http_version parse_version known_version parse_numbers cut parse_uint parse_digits
parse_http_version-short = refl

parse-format_version_example :
    parse_http_version (format_version (version 10 65535)) ≡ (version 10 65535, none)
parse-format_version_example = parse-format_version (version 10 65535) (omega arith) (omega arith)
