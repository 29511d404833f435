-- ===== src/Http/Header.antt =====
-- The header store (http/header/header.go). The locks of the map's keys and of the processor are
-- counted in the state; the lock of one key's values is held for the length of the one access that
-- it guards, so it is no part of the state.
pub mod Values
pub mod Matching
pub mod Locks
use jotpot_server.Base.{
  ℕ, zero, suc, ◌-◌, Bool, true, false, not, ◌&&◌, Option, none, some, List, [], ◌∷◌, ◌++◌, ◌==◌,
  if◌then◌else◌, Bytes, equal, length, Store, lookup, store, delete, ◌⊎◌, inl, inr,
}
use jotpot_server.Base.Int.{ℤ, pos, ◌-ℤ◌}

-- The arguments and the results of a ValuesProcessors function: the key, the values, and the range
-- that was changed. A function that panics is none of the model's: LowerCaseAll of
-- jps/server/standard/httpServer.go is one of them but for the first position -1, which `Add` gives it
-- for a key with an empty list of values.
pub record Change : Type 0 where
  pub key : Bytes
  pub values : List Bytes
  pub first : ℤ
  pub last : ℤ

pub record Processor : Type 0 where
  pub key_transforms : List (Bytes → Bytes)
  pub values_processors : List (Change → Change)

-- `processor_readers` counts the read locks held on the processor, `key_mod_locked` says whether
-- the write lock on the keys is held.
pub record Header : Type 0 where
  pub values : Store (List Bytes)
  pub processor : Processor
  pub processor_readers : ℕ
  pub key_mod_locked : Bool

unfoldable pub new_header : Processor → Header
new_header p = record { values = []; processor = p; processor_readers = 0; key_mod_locked = false }

abbrev pub transform : List (Bytes → Bytes) → Bytes → Bytes
transform [] key = key
transform (f ∷ fs) key = transform fs (f key)

abbrev pub run_processors : List (Change → Change) → Change → Change
run_processors [] c = c
run_processors (f ∷ fs) c = run_processors fs (f c)

unfoldable pub get_key : Processor → Bytes → Bytes
get_key p key = transform p.key_transforms key

unfoldable pub process_values : Processor → Bytes → List Bytes → ℤ → ℤ → List Bytes
process_values p key values a b =
    (run_processors p.values_processors
      (record { key = key; values = values; first = a; last = b })).values

abbrev pub read_lock : Header → Header
read_lock h = record h { processor_readers = suc h.processor_readers }

abbrev pub read_unlock : Header → Header
read_unlock h = record h { processor_readers = h.processor_readers - 1 }

unfoldable pub get_key_safe : Header → Bytes → Header × Bytes
get_key_safe h key = let h' = read_lock h in (read_unlock h', get_key h'.processor key)

unfoldable pub get_values_raw_key : Store (List Bytes) → Bytes → List Bytes
get_values_raw_key m key = elim (lookup key m) [ none ↦ [] | some vs ↦ vs ]

unfoldable pub get_values : Header → Bytes → Header × List Bytes
get_values h key = let (h', raw) = get_key_safe h key in (h', get_values_raw_key h'.values raw)

-- The first of the values, or "".
abbrev pub first_value : List Bytes → Bytes
first_value [] = []
first_value (v ∷ vs) = v

unfoldable pub get_value : Header → Bytes → Header × Bytes
get_value h key = let (h', vs) = get_values h key in (h', first_value vs)

-- What other goroutines do to the map between the release of the read lock on the keys and the
-- taking of the write lock.
abbrev pub Meanwhile : Type 0
Meanwhile = Store (List Bytes) → Store (List Bytes)

-- A key that the first look finds stays, as the read lock is kept; otherwise the map is looked at
-- again, under the write lock.
unfoldable pub set_values_raw :
    Meanwhile → Bytes → List Bytes → Store (List Bytes) → Store (List Bytes)
set_values_raw meanwhile key values m = elim (lookup key m) [
  | some vs ↦ store key values m
  | none ↦ let m' = meanwhile m in store key values m'
]

unfoldable pub set_values : Meanwhile → Bytes → List Bytes → Header → Header
set_values meanwhile key values h =
    let h₁ = read_lock h in
    let raw = get_key h₁.processor key in
    let processed = process_values h₁.processor raw values (pos 0) (pos (length values)) in
    let h₂ = read_unlock h₁ in
    record h₂ { values = set_values_raw meanwhile raw processed h₂.values }

unfoldable pub set_value : Meanwhile → Bytes → Bytes → Header → Header
set_value meanwhile key value h = set_values meanwhile key (value ∷ []) h

-- The values of a key with one more, when the key has the values `vs` or is missing.
unfoldable pub appended : Processor → Bytes → Bytes → Option (List Bytes) → List Bytes
appended p key value none = process_values p key (value ∷ []) (pos 0) (pos 1)
appended p key value (some vs) =
    process_values p key (vs ++ value ∷ []) (pos (length vs) -ℤ pos 1) (pos (length vs))

unfoldable pub add_raw_key :
    Meanwhile → Processor → Bytes → Bytes → Store (List Bytes) → Store (List Bytes)
add_raw_key meanwhile p key value m = elim (lookup key m) [
  | some vs ↦ store key (appended p key value (some vs)) m
  | none ↦ let m' = meanwhile m in store key (appended p key value (lookup key m')) m'
]

unfoldable pub add_raw_key_unsafe :
    Processor → Bytes → Bytes → Store (List Bytes) → Store (List Bytes)
add_raw_key_unsafe p key value m = store key (appended p key value (lookup key m)) m

unfoldable pub add : Meanwhile → Bytes → Bytes → Header → Header
add meanwhile key value h =
    let h₁ = read_lock h in
    let m = add_raw_key meanwhile h₁.processor (get_key h₁.processor key) value h₁.values in
    read_unlock (record h₁ { values = m })

unfoldable pub add_unsafe : Bytes → Bytes → Header → Header
add_unsafe key value h = record h {
  values = add_raw_key_unsafe h.processor (get_key h.processor key) value h.values;
}

unfoldable pub del_raw_key : Meanwhile → Bytes → Store (List Bytes) → Store (List Bytes) × Bool
del_raw_key meanwhile key m = elim (lookup key m) [
  | none ↦ (m, false)
  | some vs ↦
      let m' = meanwhile m in
      elim (lookup key m') [ none ↦ (m', false) | some ws ↦ (delete key m', true) ]
]

unfoldable pub del : Meanwhile → Bytes → Header → Header
del meanwhile key h =
    let (h', raw) = get_key_safe h key in
    record h' { values = (del_raw_key meanwhile raw h'.values).0 }

-- The inner loop of `Has`: the first value that is equal to `x` and not yet found is marked as
-- found.
unfoldable pub mark : Bytes → List Bytes → List Bool → Option (List Bool)
mark x (v ∷ values) (w ∷ wants) =
    let rest = mark x values wants in
    if not w && equal x v
    then some (true ∷ wants)
    else elim rest [ none ↦ none | some ws ↦ some (w ∷ ws) ]
mark x _ _ = none

-- The outer loop of `Has`; `left` of the values are not yet found.
unfoldable pub has_from : List Bytes → List Bytes → ℕ → List Bool → Bool
has_from [] values left wants = false
has_from (x ∷ have) values left wants = elim (mark x values wants) [
  | none ↦ has_from have values left wants
  | some wants' ↦
      let rest = has_from have values (left - 1) wants' in if left - 1 == 0 then true else rest
]

-- `make([]bool, n)`.
abbrev pub unmarked : List Bytes → List Bool
unmarked [] = []
unmarked (v ∷ values) = false ∷ unmarked values

-- With no values left the lock on the processor is not released.
unfoldable pub has : Bytes → List Bytes → Header → Header × Bool
has key values h =
    let h₁ = read_lock h in
    let raw = get_key h₁.processor key in
    let wanted = process_values h₁.processor raw values (pos 0) (pos (length values)) in
    elim (length wanted) [
      | zero ↦ (h₁, true)
      | suc n ↦
          let h₂ = read_unlock h₁ in
          (h₂, has_from (get_values_raw_key h₂.values raw) wanted (suc n) (unmarked wanted))
    ]

module _ {E : Type 0} where
  -- What the callback of `ModifyRawKey` returns: the new values or the error.
  abbrev pub modify_with :
      Bytes → List Bytes × Option E → Store (List Bytes) → Store (List Bytes) × Option E
  modify_with key (values, none) m = (store key values m, none)
  modify_with key (values, some e) m = (m, some e)

  unfoldable pub modify_raw_key :
      Meanwhile
      → Bytes
      → (Bytes → List Bytes → List Bytes × Option E)
      → Store (List Bytes)
      → Store (List Bytes) × Option E
  modify_raw_key meanwhile key cb m = elim (lookup key m) [
    | some vs ↦ modify_with key (cb key vs) m
    | none ↦
        let m' = meanwhile m in
        elim (lookup key m') [
          | none ↦ modify_with key (cb key []) m'
          | some ws ↦ modify_with key (cb key ws) m'
        ]
  ]

  -- `ForEach` on the entries in the order in which the map yields them to this call, which is another
  -- one for another call, with the error so far; the
  -- callback changes the world `W`. Keys without values are passed over.
  unfoldable pub for_each :
      {W : Type 0}
      → (Bytes → List Bytes → W → W × Option E)
      → Store (List Bytes)
      → W
      → Option E
      → W × Option E
  for_each cb [] w err = (w, err)
  for_each cb ((key, []) ∷ m) w err = for_each cb m w err
  for_each cb ((key, v ∷ vs) ∷ m) w err =
      let (w', err') = cb key (v ∷ vs) w in for_each cb m w' err'

-- An adder holds its header until it is released; the header is then none.
unfoldable pub unsafe_adder : Header → Option Header
unsafe_adder h =
    some (record h { key_mod_locked = true; processor_readers = suc h.processor_readers })

-- A released adder panics: it calls a method of nil.
unfoldable pub adder_add : Bytes → Bytes → Option Header → Option (Option Header)
adder_add key value none = none
adder_add key value (some h) = some (some (add_unsafe key value h))

pub data ReleaseError : Type 0 where
  err_no_header_to_release : ReleaseError

-- The adder that is left, and the header that is released or the error.
unfoldable pub release : Option Header → Option Header × (Header ⊎ ReleaseError)
release none = (none, inr err_no_header_to_release)
release (some h) =
    (none, inl (record h { key_mod_locked = false; processor_readers = h.processor_readers - 1 }))
