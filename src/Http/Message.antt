-- ===== src/Http/Message.antt =====
-- The methods of Request and Response that use the header (http/request.go), with no other goroutine
-- at work on it.
pub mod Fields
use jotpot_server.Base.{
  ℕ, zero, suc, ◌+◌, ◌-◌, ◌*◌, ◌/◌, ◌%◌, ◌^◌, Bool, true, false, not, ◌&&◌, Option, none, some,
  List, [], ◌∷◌, ◌++◌, ◌==◌, ltb, leb, ◌||◌, if◌then◌else◌, Bytes, equal, codes, ◌⊎◌, inl, inr,
}
use jotpot_server.Base.Int.{ℤ, pos, negsuc, ◌*ℤ◌, wrap_int64}
use jotpot_server.Base.Decimal.{NumError, parse_uint, format_uint}
use jotpot_server.Jps.Range.{Range}
use jotpot_server.Http.Header.{Header, get_values, get_values_raw_key, set_value, del}
use jotpot_server.Http.Ranges.{
  ParsedRanges, parsed, FormatError, parse_range_header, format_ranges, dash,
}

pub record Request : Type 0 where
  pub method_str : Bytes
  pub header : Header

pub record Response : Type 0 where
  pub status_code : ℕ
  pub status_text : Bytes
  pub header : Header

-- Set and Del without other goroutines.
abbrev pub set_alone : Bytes → Bytes → Header → Header
set_alone key value h = set_value (λ m. m) key value h

abbrev pub del_alone : Bytes → Header → Header
del_alone key h = del (λ m. m) key h

abbrev pub last_value : List Bytes → Option Bytes
last_value [] = none
last_value (v ∷ []) = some v
last_value (v ∷ w ∷ vs) = last_value (w ∷ vs)

-- Only the last value of the header is read, and only for GET.
unfoldable pub ranges : Request → Request × ParsedRanges
ranges r =
    let (h, rhs) = get_values r.header (codes "Range") in
    if equal r.method_str (codes "GET")
    then (
      record r { header = h },
      elim (last_value rhs) [ none ↦ parsed [] none | some v ↦ parse_range_header v ],
    )
    else (r, parsed [] none)

unfoldable pub set_ranges : List Range → Request → Request × Option FormatError
set_ranges rs r =
    let (val, err) = format_ranges rs in
    (
      record r {
        header =
            if equal val []
            then del_alone (codes "Range") r.header
            else set_alone (codes "Range") val r.header;
      },
      err,
    )

abbrev pub is_empty : List Bytes → Bool
is_empty [] = true
is_empty (v ∷ vs) = false

unfoldable pub was_cached : Response → Response × Bool
was_cached r =
    let (h, vs) = get_values r.header (codes "Age") in (record r { header = h }, not (is_empty vs))

-- time.Second.
abbrev pub second : ℕ
second = 1000000000

-- FormatInt of t / time.Second, which rounds towards 0.
unfoldable pub format_seconds : ℤ → Bytes
format_seconds (pos n) = format_uint (n / second)
format_seconds (negsuc n) =
    if (suc n / second) == 0 then format_uint 0 else dash ∷ format_uint (suc n / second)

unfoldable pub set_cached_age : ℤ → Response → Response
set_cached_age t r = record r { header = set_alone (codes "Age") (format_seconds t) r.header }

unfoldable pub set_was_cached : Bool → Response → Response
set_was_cached true r = let (r', c) = was_cached r in if c then r' else set_cached_age (pos 0) r'
set_was_cached false r = record r { header = del_alone (codes "Age") r.header }

-- string(i) of an int: the UTF-8 of the code point, or of U+FFFD if there is none.
unfoldable pub string_of_int : ℕ → Bytes
string_of_int i =
    if ltb i 128
    then i ∷ []
    else if ltb i 2048
    then (192 + i / 64) ∷ (128 + i % 64) ∷ []
    else if (leb 55296 i && ltb i 57344) || ltb 1114111 i
    then 239 ∷ 191 ∷ 189 ∷ []
    else if ltb i 65536
    then (224 + i / 4096) ∷ (128 + (i / 64) % 64) ∷ (128 + i % 64) ∷ []
    else (240 + i / 262144) ∷ (128 + (i / 4096) % 64) ∷ (128 + (i / 64) % 64) ∷ (128 + i % 64) ∷ []

-- The loop of CachedAge from the index i: `range` over the values gives their indices.
unfoldable pub max_age : ℕ → List Bytes → ℕ → ℕ × Option NumError
max_age i [] secs = (secs, none)
max_age i (v ∷ ages) secs = elim (parse_uint 63 (string_of_int i)) [
  | inr e ↦ (secs, some e)
  | inl ts ↦ max_age (suc i) ages (if ltb secs ts then ts else secs)
]

unfoldable pub cached_age : Response → ℤ × Option NumError
cached_age r =
    let (secs, err) = max_age 0 (get_values r.header (codes "Age")).1 0 in
    (wrap_int64 (pos secs *ℤ pos second), err)

unfoldable pub set_http_status : ℕ → Bytes → Response → Response
set_http_status code text r = record r { status_code = code; status_text = text }

unfoldable pub set_http_status_code : ℕ → Response → Response
set_http_status_code code r = record r { status_code = code; status_text = [] }

-- The address of the connection, or the one that a header names; indexing beyond the values panics.
pub data Address : Type 0 where
  connection panic : Address
  named : Bytes → Address

abbrev pub second_value : List Bytes → Address
second_value (v ∷ w ∷ vs) = named w
second_value _ = panic

-- What the four functions do with the header of their raw key; both cases read addrs[1].
unfoldable pub address_from : Bytes → Bool → Header → Address
address_from key use_jp_headers h =
    let addrs = get_values_raw_key h.values key in
    if use_jp_headers && not (is_empty addrs) then second_value addrs else connection

unfoldable pub incoming_to : Bool → Header → Address
incoming_to b h = address_from (codes "jp-to") b h

unfoldable pub incoming_from : Bool → Header → Address
incoming_from b h = address_from (codes "jp-from") b h

unfoldable pub outgoing_to : Bool → Header → Address
outgoing_to b h = address_from (codes "jp-fwd-to") b h

unfoldable pub outgoing_from : Bool → Header → Address
outgoing_from b h = address_from (codes "jp-fwd-from") b h
