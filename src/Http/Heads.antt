-- ===== src/Http/Heads.antt =====
-- The fields of a message's head: ParseHeaders of http/http1/headerParser.go, and
-- http/http1/headerFormatter.go. An index that moves up through a line is the rest of the line, and
-- an index out of range is a panic. The loops run on fuel, which `parse_headers` gives.
pub mod Scan
pub mod Fields
pub mod Lines
pub mod RoundTrip
pub mod Written
pub mod Text
pub mod Newline
pub mod Safety
pub mod Errors
use jotpot_server.Base.{
  ℕ, zero, suc, ◌-◌, Bool, true, false, Option, none, some, List, [], ◌∷◌, ◌++◌, ◌==◌,
  if◌then◌else◌, Bytes, length, take, drop, Store,
}
use jotpot_server.Http.Header.{for_each}
use jotpot_server.Http.Chars.{is_whitespace, is_token_char, is_v_char}

-- An error of a source: io.EOF, or another one.
pub data ReadError : Type 0 where
  eof : ReadError
  other : ℕ → ReadError

-- A bufio.Reader: the bytes that are still to come, and the error behind them, which stays.
pub record Reader : Type 0 where
  pub bytes : Bytes
  pub ends : ReadError

pub record Line : Type 0 where
  pub text : Bytes
  pub err : Option ReadError

-- ReadBytes('\n'): the bytes up to a newline and those behind it, and whether there is one.
abbrev pub until_newline : Bytes → Bytes × Bytes × Bool
until_newline [] = ([], [], false)
until_newline (b ∷ bs) =
    let (l, r, found) = until_newline bs in
    if b == 10 then (b ∷ [], bs, true) else (b ∷ l, r, found)

unfoldable pub read_bytes : Reader → Line × Reader
read_bytes s =
    let (l, r, found) = until_newline s.bytes in
    (
      record { text = l; err = if found then none else some s.ends },
      record { bytes = r; ends = s.ends },
    )

pub data HeaderError : Type 0 where
  err_no_header_key err_malformed_header : HeaderError
  err_illegal_character_in_header_name err_illegal_character_in_header_value : HeaderError
  err_expecting_carriage_return : HeaderError
  failed : ReadError → HeaderError

-- The tests of a line that is too short for a field: the error, and whether one can respond.
unfoldable pub short_line : Bytes → Option ReadError → Option (Option HeaderError × Bool)
short_line (a ∷ b ∷ c ∷ _) err = none
short_line (a ∷ b ∷ []) (some (other n)) = some (some (failed (other n)), false)
short_line (a ∷ b ∷ []) _ =
    if a == 13 then some (none, false) else some (some err_expecting_carriage_return, true)
short_line _ (some e) = some (some (failed e), true)
short_line _ none = some (some err_expecting_carriage_return, false)

-- The rest of a key behind its first byte, and what follows the colon.
pub data Key : Type 0 where
  key_end : Bytes → Bytes → Key
  key_error : HeaderError → Key

abbrev pub with_byte : ℕ → Key → Key
with_byte b (key_end k rest) = key_end (b ∷ k) rest
with_byte b (key_error e) = key_error e

unfoldable pub scan_key : Bytes → Key
scan_key [] = key_error err_malformed_header
scan_key (b ∷ rest) =
    let more = scan_key rest in
    if is_token_char b
    then with_byte b more
    else if b == 58
    then key_end [] rest
    else key_error err_illegal_character_in_header_name

unfoldable pub split_key : Bytes → Key
split_key [] = key_error err_no_header_key
split_key (b ∷ rest) =
    if is_token_char b then with_byte b (scan_key rest) else key_error err_no_header_key

-- The whitespace at the start and what follows it; none is a panic, at the end of the line.
unfoldable pub split_blanks : Bytes → Option (Bytes × Bytes)
split_blanks [] = none
split_blanks (b ∷ rest) =
    let more = split_blanks rest in
    if is_whitespace b
    then (elim more [ none ↦ none | some (ws, rest') ↦ some (b ∷ ws, rest') ])
    else some ([], b ∷ rest)

-- Where the loop over a value stands: at its head, with the whitespace that is counted; behind a
-- byte that `IsVChar` holds of; or in whitespace.
pub data Place : Type 0 where
  head : ℕ → Place
  behind_v_char : Place
  blanks : ℕ → Place

-- How the loop ends on a line, with the part of the value that it read and the whitespace counted:
-- behind whitespace, or at the line's end, with the rest of the line.
pub data Scanned : Type 0 where
  panic illegal : Scanned
  blank_end : Bytes → ℕ → Scanned
  line_end : Bytes → ℕ → Bytes → Scanned

pub data Next : Type 0 where
  go : Place → Next
  stop : Scanned → Next

-- `line[valueEnd] == '\r' && line[valueEnd+1] == '\n'`.
unfoldable pub at_line_end : Scanned → ℕ → Bytes → Next
at_line_end s b [] = if b == 13 then stop panic else stop illegal
at_line_end s b (c ∷ _) =
    if b == 13 then (if c == 10 then stop s else stop illegal) else stop illegal

unfoldable pub at_head : ℕ → ℕ → Bytes → Next
at_head ws b rest =
    if is_v_char b then go behind_v_char else at_line_end (line_end [] ws (b ∷ rest)) b rest

unfoldable pub next_place : Place → ℕ → Bytes → Next
next_place (head ws) b rest = at_head ws b rest
next_place behind_v_char b rest = if is_whitespace b then go (blanks 1) else at_head 0 b rest
next_place (blanks ws) b rest =
    if is_whitespace b
    then go (blanks (suc ws))
    else if is_v_char b
    then go (head 0)
    else at_line_end (blank_end [] ws) b rest

abbrev pub behind : ℕ → Scanned → Scanned
behind b panic = panic
behind b illegal = illegal
behind b (blank_end v ws) = blank_end (b ∷ v) ws
behind b (line_end v ws rest) = line_end (b ∷ v) ws rest

unfoldable pub scan_value : Place → Bytes → Scanned
scan_value p [] = panic
scan_value p (b ∷ rest) = elim (next_place p b rest) [
  | stop s ↦ s
  | go p' ↦ behind b (scan_value p' rest)
]

-- The value, `nextLine`, and the reader; or the ways not to get there.
pub data Value : Type 0 where
  value : Bytes → Option Line → Reader → Value
  illegal_value : Reader → Value
  index_panic no_fuel : Value

abbrev pub without_last : ℕ → Bytes → Bytes
without_last n v = take (length v - n) v

-- The loop over a value from the rest of its line: `before` is the part that is read, `next` is
-- `nextLine`.
unfoldable pub value_from : ℕ → Reader → Option Line → Bytes → ℕ → Bytes → Value
value_from zero r next before ws rest = no_fuel
value_from (suc fuel) r next before ws rest = elim (scan_value (head ws) rest) [
  | panic ↦ index_panic
  | illegal ↦ illegal_value r
  | blank_end v n ↦ value (without_last n (before ++ v)) next r
  | line_end v n end ↦
      let (l, r') = read_bytes r in
      elim l.text [
        | [] ↦ index_panic
        | c ∷ cs ↦
            let folded : Value = elim (split_blanks (drop 3 (end ++ (c ∷ cs)))) [
              | none ↦ index_panic
              | some (bs, rest') ↦
                  value_from fuel r' (some l) (before ++ (v ++ (take 3 (end ++ (c ∷ cs)) ++ bs)))
                    (length bs) rest'
            ] in
            if is_whitespace c then folded else value (without_last n (before ++ v)) (some l) r'
      ]
]

-- What ParseHeaders returns, with the header `H` that the adder leaves and the reader.
pub data Parsed (H : Type 0) : Type 0 where
  returned : H → Reader → Option HeaderError → Bool → Parsed H
  panicked out_of_fuel : Parsed H

-- One line of at least three bytes.
pub data Field : Type 0 where
  field : Bytes → Bytes → Option Line → Reader → Field
  refused : HeaderError → Reader → Field
  field_panic field_no_fuel : Field

unfoldable pub read_value : Reader → Bytes → Bytes → Field
read_value r key rest = elim (split_blanks rest) [
  | none ↦ field_panic
  | some (_, rest') ↦ elim (value_from (suc (length r.bytes)) r none [] 0 rest') [
    | value v next r' ↦ field key v next r'
    | illegal_value r' ↦ refused err_illegal_character_in_header_value r'
    | index_panic ↦ field_panic
    | no_fuel ↦ field_no_fuel
  ]
]

unfoldable pub read_field : Reader → Bytes → Field
read_field r text = elim (split_key text) [
  | key_error e ↦ refused e r
  | key_end key rest ↦ read_value r key rest
]

-- The line behind a field.
unfoldable pub next_line : Option Line → Reader → Line × Reader
next_line (some l) r = (l, r)
next_line none r = read_bytes r

module _ {H : Type 0} (add : Bytes → Bytes → H → H) where
  unfoldable pub headers_from : ℕ → H → Line → Reader → Parsed H
  headers_from zero h line r = out_of_fuel
  headers_from (suc fuel) h line r = elim (short_line line.text line.err) [
    | some (err, can_respond) ↦ returned h r err can_respond
    | none ↦ elim (read_field r line.text) [
      | refused e r' ↦ returned h r' (some e) true
      | field_panic ↦ panicked
      | field_no_fuel ↦ out_of_fuel
      | field key v next r' ↦ elim line.err [
        | some e ↦ returned (add key v h) r' (some (failed e)) false
        | none ↦ let (l, r'') = next_line next r' in headers_from fuel (add key v h) l r''
      ]
    ]
  ]

  unfoldable pub parse_headers : Reader → H → Parsed H
  parse_headers s h = let (line, r) = read_bytes s in headers_from (suc (length s.bytes)) h line r

-- What is written of one key: the key, its values with ", " between them, and the end of the line.
unfoldable pub value_pieces : Bytes → List Bytes → List Bytes
value_pieces v [] = v ∷ (13 ∷ 10 ∷ []) ∷ []
value_pieces v (w ∷ vs) = v ∷ (44 ∷ 32 ∷ []) ∷ value_pieces w vs

-- `ForEach` passes over a key with no values, of which the callbacks could write none.
unfoldable pub field_pieces : Bytes → List Bytes → List Bytes
field_pieces key [] = []
field_pieces key (v ∷ vs) = key ∷ (58 ∷ 32 ∷ []) ∷ value_pieces v vs

-- The appends of the callback of `FormatHeaders`.
unfoldable pub append_all : Bytes → List Bytes → Bytes
append_all out [] = out
append_all out (p ∷ ps) = append_all (out ++ p) ps

-- The error of the callbacks of `FormatHeaders` is always nil.
unfoldable pub format_headers : Store (List Bytes) → Bytes
format_headers m =
    (for_each {E = Unit {0}} (λ key vs out. (append_all out (field_pieces key vs), none)) m []
      none).0

module _ {W E : Type 0} (write : Bytes → W → W × Option E) where
  -- The callback of `WriteHeaders`, which ends at an error.
  unfoldable pub write_all : List Bytes → W → W × Option E
  write_all [] w = (w, none)
  write_all (p ∷ ps) w =
      let (w', err) = write p w in elim err [ some e ↦ (w', some e) | none ↦ write_all ps w' ]

  unfoldable pub write_headers : Store (List Bytes) → W → W × Option E
  write_headers m w = for_each (λ key vs. write_all (field_pieces key vs)) m w none

  -- The callback of `WriteHeadersNoError`, which does not look at the errors.
  unfoldable pub write_all_no_error : List Bytes → W → W
  write_all_no_error [] w = w
  write_all_no_error (p ∷ ps) w = write_all_no_error ps (write p w).0

  unfoldable pub write_headers_no_error : Store (List Bytes) → W → W × Option E
  write_headers_no_error m w =
      for_each (λ key vs w'. (write_all_no_error (field_pieces key vs) w', none)) m w none
