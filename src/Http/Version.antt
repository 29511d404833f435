-- ===== src/Http/Version.antt =====
-- Protocol versions (http/version.go) and the methods of requests (http/methods.go).
pub mod RoundTrip
use jotpot_server.Base.{
  ℕ, ◌+◌, ◌≡◌, Bool, true, false, not, Option, none, some, List, [], ◌∷◌, ◌++◌, ◌==◌, if◌then◌else◌,
  Bytes, equal, codes, ◌⊎◌, inl, inr, take, drop,
}
use jotpot_server.Base.Decimal.{NumError, format_uint, parse_uint}
use jotpot_server.Http.Ranges.{cut}

pub record Version : Type 0 where
  pub major : ℕ
  pub minor : ℕ

abbrev pub version_prefix : Bytes
version_prefix = codes "HTTP/"

abbrev pub dot : ℕ
dot = 46

unfoldable pub format_version : Version → Bytes
format_version v = version_prefix ++ format_uint v.major ++ dot ∷ format_uint v.minor

pub data VersionError : Type 0 where
  err_does_not_start_with_http err_no_version err_no_dot : VersionError
  err_number : NumError → VersionError

abbrev pub version : ℕ → ℕ → Version
version major minor = record { major = major; minor = minor }

-- The switch on the versions that are in use, on s[0] and s[1:].
unfoldable pub known_version : ℕ → Bytes → Option Version
known_version c rest =
    if c == 49
    then (if equal rest (codes ".1")
        then some (version 1 1)
        else if equal rest (codes ".0")
        then some (version 1 0)
        else none)
    else if c == 50
    then (if equal rest (codes ".0") then some (version 2 0) else none)
    else if c == 51
    then (if equal rest (codes ".0") then some (version 3 0) else none)
    else none

-- What follows the switch: two numbers of 16 bits around the first dot.
unfoldable pub parse_numbers : Bytes → Version × Option VersionError
parse_numbers s = elim (cut dot s) [
  | none ↦ (version 0 0, some err_no_dot)
  | some (first, second) ↦ elim (parse_uint 16 first) [
    | inr e ↦ (version 0 0, some (err_number e))
    | inl major ↦ elim (parse_uint 16 second) [
      | inr e ↦ (version major 0, some (err_number e))
      | inl minor ↦ (version major minor, none)
    ]
  ]
]

-- The value behind the prefix.
unfoldable pub parse_version : Bytes → Version × Option VersionError
parse_version [] = (version 0 0, some err_no_version)
parse_version (c ∷ rest) = elim (known_version c rest) [
  | some v ↦ (v, none)
  | none ↦ parse_numbers (c ∷ rest)
]

unfoldable pub parse_http_version : Bytes → Version × Option VersionError
parse_http_version s =
    if equal (take 5 s) version_prefix
    then parse_version (drop 5 s)
    else (version 0 0, some err_does_not_start_with_http)

-- The methods of jps that HTTP has, and one for all others.
pub data Method : Type 0 where
  unknown read post write stat options remove : Method
  other : ℕ → Method

-- The name of each method that HTTP has, in the order of the switch.
unfoldable pub get_method : Bytes → Method
get_method str =
    if equal str (codes "GET")
    then read
    else if equal str (codes "POST")
    then post
    else if equal str (codes "PUT")
    then write
    else if equal str (codes "HEAD")
    then stat
    else if equal str (codes "OPTIONS")
    then options
    else if equal str (codes "DELETE")
    then remove
    else unknown

unfoldable pub get_method_str : Method → Bytes
get_method_str read = codes "GET"
get_method_str post = codes "POST"
get_method_str write = codes "PUT"
get_method_str stat = codes "HEAD"
get_method_str options = codes "OPTIONS"
get_method_str remove = codes "DELETE"
get_method_str _ = []
