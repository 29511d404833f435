-- ===== src/Jps/Status.antt =====
-- Response statuses (jps/responseStatus.go) and the maps from them to protocol codes
-- (jps/responseStatusMaps.go). A status is a uint16: its type in the high byte, its code in the low.
pub mod Laws
use Prim.Native.Nat.{bit_and}
use jotpot_server.Base.{
  ℕ, suc, ◌+◌, ◌/◌, ◌%◌, Bool, true, false, List, [], ◌∷◌, ◌++◌, Option, none, some, ltb, leb, ◌==◌,
  if◌then◌else◌, length, Bytes, ◌-◌, zero,
}

unfoldable pub status_type : ℕ → ℕ
status_type s = s / 256

unfoldable pub get_code : ℕ → ℕ
get_code s = s % 256

abbrev pub not_ok_mask : ℕ
not_ok_mask = 0xc000

unfoldable pub ok : ℕ → Bool
ok s = bit_and s not_ok_mask == 0

unfoldable pub is_client_error : ℕ → Bool
is_client_error s = if bit_and s 0x8000 == 0 then false else true

unfoldable pub is_server_error : ℕ → Bool
is_server_error s = if bit_and s 0x4000 == 0 then false else true

unfoldable pub is_redirect : ℕ → Bool
is_redirect s = if bit_and s 0x2000 == 0 then false else true

-- The type byte of a status, where it is one that the maps know.
pub data ResponseType : Type 0 where
  type_ok type_redirect type_client_error type_server_error : ResponseType

unfoldable pub known_type : ℕ → Option ResponseType
known_type t =
    if t == 0
    then some type_ok
    else if t == 0x20
    then some type_redirect
    else if t == 0x80
    then some type_client_error
    else if t == 0x40
    then some type_server_error
    else none

-- ResponseStatusToUint16Map and ResponseStatusToCodeWithStringMap, at their type of values.
pub record StatusMap (A : Type 0) : Type 0 where
  pub ok : List A
  pub redirect : List A
  pub client_error : List A
  pub server_error : List A
  pub default : A

module _ {A : Type 0} where
  -- The slice that the `switch` selects.
  unfoldable pub slice : ResponseType → StatusMap A → List A
  slice type_ok maps = maps.ok
  slice type_redirect maps = maps.redirect
  slice type_client_error maps = maps.client_error
  slice type_server_error maps = maps.server_error

  -- An assignment through the pointer to the slice.
  unfoldable pub set_slice : ResponseType → List A → StatusMap A → StatusMap A
  set_slice type_ok l maps = record maps { ok = l }
  set_slice type_redirect l maps = record maps { redirect = l }
  set_slice type_client_error l maps = record maps { client_error = l }
  set_slice type_server_error l maps = record maps { server_error = l }

  abbrev pub get_or : List A → ℕ → A → A
  get_or [] i d = d
  get_or (x ∷ xs) zero d = x
  get_or (x ∷ xs) (suc i) d = get_or xs i d

  abbrev pub set : List A → ℕ → A → List A
  set [] i v = []
  set (x ∷ xs) zero v = v ∷ xs
  set (x ∷ xs) (suc i) v = x ∷ set xs i v

  -- `Get` in the slice of the status's type.
  unfoldable pub get_in : List A → A → ℕ → A
  get_in [] default code = default
  get_in (x ∷ xs) default code =
      get_or (x ∷ xs) (if leb (length (x ∷ xs)) code then 0 else code) default

  unfoldable pub get : StatusMap A → ℕ → A
  get maps s = elim (known_type (status_type s)) [
    | some t ↦ get_in (slice t maps) maps.default (get_code s)
    | none ↦ maps.default
  ]

  -- The loop that appends the default `n` times.
  unfoldable pub pad : ℕ → A → List A → List A
  pad zero dflt l = l
  pad (suc n) dflt l = pad n dflt (l ++ dflt ∷ [])

  -- The case `l < code` of `Set`, where code is 2 or more: `head` is the first element, if any.
  unfoldable pub extend : List A → A → ℕ → A → List A
  extend [] default code u = pad (code - 2) default (default ∷ default ∷ []) ++ u ∷ []
  extend (x ∷ xs) default code u =
      pad (code - suc (length (x ∷ xs))) x ((x ∷ xs) ++ x ∷ []) ++ u ∷ []

  -- `Set` in the slice of the status's type.
  unfoldable pub set_in : List A → A → ℕ → A → List A
  set_in l default code u =
      if length l == code
      then l ++ u ∷ []
      else if ltb (length l) code
      then (if code == 1 then l ++ default ∷ u ∷ [] else extend l default code u)
      else set l code u

  -- `none` is the panic for a type that the map does not know.
  unfoldable pub put : StatusMap A → ℕ → A → Option (StatusMap A)
  put maps s u = elim (known_type (status_type s)) [
    | some t ↦ some (set_slice t (set_in (slice t maps) maps.default (get_code s) u) maps)
    | none ↦ none
  ]

  -- `SetAll`: the pairs in order, up to a panic.
  unfoldable pub set_all : StatusMap A → List (ℕ × A) → Option (StatusMap A)
  set_all maps [] = some maps
  set_all maps ((s, u) ∷ rest) = elim (put maps s u) [
    | some maps' ↦ set_all maps' rest
    | none ↦ none
  ]

pub record CodeWithString : Type 0 where
  pub code : ℕ
  pub str : Bytes

module _ {A : Type 0} where
  unfoldable pub new_map : A → StatusMap A
  new_map default = record {
    ok = [];
    redirect = [];
    client_error = [];
    server_error = [];
    default = default;
  }

  unfoldable pub new_map_from_value_pairs : A → List (ℕ × A) → Option (StatusMap A)
  new_map_from_value_pairs default values = set_all (new_map default) values
