-- ===== src/Http/Header/Values.antt =====
-- What the header's methods do to the values of each key, whatever other goroutines do to the map
-- between two locks.
use mathlib.Core.Path.{subst}
use jotpot_server.Base.{
  ℕ, Bool, ◌&&◌, ◌||◌, ltb, All, All-append, ◌≡◌, ◌≢◌, ◌⊎◌, refl, true, false, Option, none, some,
  List, [], ◌∷◌, ◌++◌, Bytes, equal, length, Store, lookup, store, lookup-store, lookup-store_other,
  lookup-delete, lookup-delete_other, Option-cases, inl, inr,
}
use jotpot_server.Base.Int.{ℤ, pos}
use jotpot_server.Http.Header.{
  Header, Processor, Meanwhile, get_key, get_key_safe, process_values, get_values_raw_key,
  get_values, set_values, set_values_raw, add, add_raw_key, add_raw_key_unsafe, appended,
  del_raw_key, modify_raw_key, modify_with, for_each,
}

-- The map that a writer of the key changes: what it looked at, if it had the key, and otherwise what
-- the others left.
abbrev pub locked : Meanwhile → Bytes → Store (List Bytes) → Store (List Bytes)
locked meanwhile key m = elim (lookup key m) [ some vs ↦ m | none ↦ meanwhile m ]

-- Setting values stores them in the map as the writer's lock finds it, in both branches: no change
-- that another goroutine made in between is lost.
set_values_raw-locked :
    (meanwhile : Meanwhile) (key : Bytes) (values : List Bytes) (m : Store (List Bytes))
    → set_values_raw meanwhile key values m ≡ store key values (locked meanwhile key m)
unfolding set_values_raw
set_values_raw-locked meanwhile key values m = elim (Option-cases (lookup key m)) [
  | inl e ↦ rw (e, set_values_raw, locked) refl
  | inr (vs, e) ↦ rw (e, set_values_raw, locked) refl
]

add_raw_key-locked :
    (meanwhile : Meanwhile) (p : Processor) (key value : Bytes) (m : Store (List Bytes))
    → add_raw_key meanwhile p key value m ≡ add_raw_key_unsafe p key value (locked meanwhile key m)
unfolding add_raw_key add_raw_key_unsafe
add_raw_key-locked meanwhile p key value m = elim (Option-cases (lookup key m)) [
  | inl e ↦ rw (e, add_raw_key, locked) refl
  | inr (vs, e) ↦ rw (e, add_raw_key, locked) (rw e refl)
]

-- Without others at work the two ways to add are the same.
pub add_raw_key_alone :
    (p : Processor) (key value : Bytes) (m : Store (List Bytes))
    → add_raw_key (λ n. n) p key value m ≡ add_raw_key_unsafe p key value m
unfolding add_raw_key add_raw_key_unsafe
add_raw_key_alone p key value m = elim (Option-cases (lookup key m)) [
  | inl e ↦ rw (e, add_raw_key) (rw e refl)
  | inr (vs, e) ↦ rw (e, add_raw_key) refl
]

get_values-store :
    (key : Bytes) (values : List Bytes) (m : Store (List Bytes))
    → get_values_raw_key (store key values m) key ≡ values
unfolding get_values_raw_key
get_values-store key values m = rw (lookup-store key values m, get_values_raw_key) refl

get_values-store_other :
    (key other : Bytes) (values : List Bytes) (m : Store (List Bytes))
    → equal other key ≡ false
    → get_values_raw_key (store key values m) other ≡ get_values_raw_key m other
unfolding get_values_raw_key
get_values-store_other key other values m d =
    rw (lookup-store_other key other values m d, get_values_raw_key) refl

-- The processed values that `SetValues` stores.
abbrev pub processed : Processor → Bytes → List Bytes → List Bytes
processed p key values = process_values p (get_key p key) values (pos 0) (pos (length values))

-- After `SetValues`, the values read under a key with the same raw key are the processed ones, and
-- those of a key with another raw key are what the map, as the writer's lock found it, had for it.
pub get_values-set_values :
    (meanwhile : Meanwhile) (key other : Bytes) (values : List Bytes) (h : Header)
    → (get_values (set_values meanwhile key values h) key).1 ≡ processed h.processor key values
      × (equal (get_key h.processor other) (get_key h.processor key) ≡ false
          → (get_values (set_values meanwhile key values h) other).1
            ≡ get_values_raw_key
                (locked meanwhile (get_key h.processor key) h.values)
                (get_key h.processor other))
unfolding get_values get_key_safe set_values
get_values-set_values meanwhile key other values h =
    let raw = get_key h.processor key in
    let vs = processed h.processor key values in
    let m = locked meanwhile raw h.values in
    rw (set_values_raw-locked meanwhile raw vs h.values)
      (get_values-store raw vs m, get_values-store_other raw (get_key h.processor other) vs m)

-- After `Add`, the values read under the key are those that the writer's lock found, with the new one
-- behind them and all processed, and keys with another raw key have the values found there.
pub get_values-add :
    (meanwhile : Meanwhile) (key other value : Bytes) (h : Header)
    → let raw = get_key h.processor key in
      let found = locked meanwhile raw h.values in
      ((get_values (add meanwhile key value h) key).1
        ≡ appended h.processor raw value (lookup raw found))
      × (equal (get_key h.processor other) raw ≡ false
          → (get_values (add meanwhile key value h) other).1
            ≡ get_values_raw_key found (get_key h.processor other))
unfolding get_values get_key_safe add add_raw_key_unsafe
get_values-add meanwhile key other value h =
    let raw = get_key h.processor key in
    let m = locked meanwhile raw h.values in
    let vs = appended h.processor raw value (lookup raw m) in
    rw (add_raw_key-locked meanwhile h.processor raw value h.values)
      (get_values-store raw vs m, get_values-store_other raw (get_key h.processor other) vs m)

-- With no processors `Add` appends to the values of a key, and to none if it is missing.
pub appended_plain :
    (p : Processor) (key value : Bytes) (found : Store (List Bytes))
    → p.values_processors ≡ []
    → appended p key value (lookup key found) ≡ get_values_raw_key found key ++ value ∷ []
unfolding appended process_values get_values_raw_key
appended_plain p key value found e = elim (Option-cases (lookup key found)) [
  | inl n ↦ rw (n, get_values_raw_key) (rw (e, process_values) refl)
  | inr (vs, n) ↦ rw (n, get_values_raw_key) (rw (e, process_values) refl)
]

-- The bytes that strings.ToLower keeps: those of ASCII but the upper case letters.
abbrev pub is_lower : ℕ → Bool
is_lower b = ltb b 65 || (ltb 90 b && ltb b 128)

abbrev pub IsLower : Bytes → Type 0
IsLower = All (λ b. is_lower b ≡ true)

-- The processors leave values alone that have no upper case letters, as LowerCaseAll of
-- jps/server/standard/httpServer.go does.
abbrev pub KeepsLower : Processor → Type 0
KeepsLower p =
    (key : Bytes) (vs : List Bytes) (a b : ℤ) → All IsLower vs → process_values p key vs a b ≡ vs

abbrev or_empty : Option (List Bytes) → List Bytes
or_empty none = []
or_empty (some vs) = vs

pub appended_lower :
    (p : Processor) (key value : Bytes) (found : Store (List Bytes))
    → KeepsLower p
    → All IsLower (get_values_raw_key found key)
    → IsLower value
    → appended p key value (lookup key found) ≡ get_values_raw_key found key ++ value ∷ []
unfolding appended get_values_raw_key
appended_lower p key value found k l v = elim (Option-cases (lookup key found)) [
  | inl n ↦ rw (n, get_values_raw_key) (k key (value ∷ []) _ _ (v, tt))
  | inr (vs, n) ↦
      let there : All IsLower vs = subst (λ o. All IsLower (or_empty o)) n l in
      rw (n, get_values_raw_key)
        (k key (vs ++ value ∷ []) _ _ (All-append IsLower vs (value ∷ []) there (v, tt)))
]

-- After `DelRawKey` the key is missing. True is answered only if the map, as it is found under the
-- write lock, has the key. Another key has the values that it has in the map found under the write
-- lock, or in that found under the read lock.
pub del_raw_key_correct :
    (meanwhile : Meanwhile) (key other : Bytes) (m : Store (List Bytes))
    → (lookup key (del_raw_key meanwhile key m).0 ≡ none)
      × (((del_raw_key meanwhile key m).1 ≡ true) → lookup key (meanwhile m) ≢ none)
      × (equal other key ≡ false
          → (lookup other (del_raw_key meanwhile key m).0 ≡ lookup other (meanwhile m))
            ⊎ (lookup other (del_raw_key meanwhile key m).0 ≡ lookup other m))
unfolding del_raw_key
del_raw_key_correct meanwhile key other m = elim (Option-cases (lookup key m)) [
  | inl e ↦ rw (e, del_raw_key) (e, λ c. cc, λ d. inr refl)
  | inr (vs, e) ↦
      rw (e, del_raw_key)
        (elim (Option-cases (lookup key (meanwhile m))) [
          | inl d ↦ rw d (d, λ c n. cc, λ o. inl refl)
          | inr (ws, d) ↦ rw d (
            lookup-delete key (meanwhile m),
            λ c n. cc,
            λ o. inl (lookup-delete_other key other (meanwhile m) o),
          )
        ])
]

-- `ModifyRawKey` calls the function once, on the values that the key has when it is locked (none if
-- it is missing); if it fails the map is left as it is, else its result is stored.
pub modify_raw_key-locked :
    {E : Type 0} (meanwhile : Meanwhile) (key : Bytes)
    (cb : Bytes → List Bytes → List Bytes × Option E) (m : Store (List Bytes))
    → let found = locked meanwhile key m in
      modify_raw_key meanwhile key cb m
      ≡ modify_with key (cb key (get_values_raw_key found key)) found
unfolding modify_raw_key get_values_raw_key
modify_raw_key-locked meanwhile key cb m = elim (Option-cases (lookup key m)) [
  | inl e ↦
      rw (e, modify_raw_key, locked)
        (elim (Option-cases (lookup key (meanwhile m))) [
          | inl d ↦ rw (d, get_values_raw_key) refl
          | inr (ws, d) ↦ rw (d, get_values_raw_key) refl
        ])
  | inr (vs, e) ↦
      rw (e, modify_raw_key, locked, get_values_raw_key) (rw (e, get_values_raw_key) refl)
]

-- `ForEach` returns what the callback returns for the last visited key with values: it goes on after
-- an error, which is lost unless it is the last.
pub for_each_last :
    {E W : Type 0} (cb : Bytes → List Bytes → W → W × Option E) (m : Store (List Bytes))
    (key v : Bytes) (vs : List Bytes) (w : W) (err : Option E)
    → for_each cb (m ++ (key, v ∷ vs) ∷ []) w err ≡ cb key (v ∷ vs) (for_each cb m w err).0
unfolding for_each
for_each_last cb [] key v vs w err = refl
for_each_last cb ((k, []) ∷ m) key v vs w err = for_each_last cb m key v vs w err
for_each_last cb ((k, u ∷ us) ∷ m) key v vs w err =
    let (w', err') = cb k (u ∷ us) w in for_each_last cb m key v vs w' err'
