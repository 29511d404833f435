-- ===== src/Base/Maps.antt =====
-- A Go map with string keys, as a list of entries: the first entry of a key counts.
use mathlib.Core.Path.{◌≡◌, refl, ap}
use mathlib.Core.Logic.{inl, inr}
use mathlib.Core.Bool.{true, false}
use mathlib.Core.Option.{Option, none, some}
use mathlib.Core.List.{List, [], ◌∷◌}
use jotpot_server.Base.Tests.{if◌then◌else◌, Bool-cases}
use jotpot_server.Base.Text.{Bytes, equal, equal_iff}

abbrev pub Store : Type 0 → Type 0
Store A = List (Bytes × A)

module _ {A : Type 0} where
  -- `v, ok := m[key]`.
  abbrev pub lookup : Bytes → Store A → Option A
  lookup key [] = none
  lookup key ((k, v) ∷ m) = if equal key k then some v else lookup key m

  -- `m[key] = v`.
  abbrev pub store : Bytes → A → Store A → Store A
  store key v [] = (key, v) ∷ []
  store key v ((k, w) ∷ m) = if equal key k then (k, v) ∷ m else (k, w) ∷ store key v m

  -- `delete(m, key)`.
  abbrev pub delete : Bytes → Store A → Store A
  delete key [] = []
  delete key ((k, w) ∷ m) = let rest = delete key m in if equal key k then rest else (k, w) ∷ rest

pub equal_refl : (a : Bytes) → equal a a ≡ true
equal_refl a = (equal_iff a a).1 refl

-- Another key than one equal to `k` is not equal to `k`.
equal_other : (a b k : Bytes) → equal a k ≡ true → equal b a ≡ false → equal b k ≡ false
equal_other a b k e d = elim (Bool-cases (equal b k)) [
  | inl h ↦ cc ((equal_iff a k).0 e)
  | inr h ↦ h
]

module _ {A : Type 0} where
  pub lookup-store : (key : Bytes) (v : A) (m : Store A) → lookup key (store key v m) ≡ some v
  lookup-store key v [] = rw (equal_refl key) refl
  lookup-store key v ((k, w) ∷ m) = elim (Bool-cases (equal key k)) [
    | inl e ↦ rw (e, e) refl
    | inr e ↦ rw (e, e) (lookup-store key v m)
  ]

  pub lookup-store_other :
      (key other : Bytes) (v : A) (m : Store A)
      → equal other key ≡ false
      → lookup other (store key v m) ≡ lookup other m
  lookup-store_other key other v [] d = rw d refl
  lookup-store_other key other v ((k, w) ∷ m) d = elim (Bool-cases (equal key k)) [
    | inl e ↦ rw (e, equal_other key other k e d) refl
    | inr e ↦
        rw e (ap (λ r. if equal other k then some w else r) (lookup-store_other key other v m d))
  ]

  pub lookup-delete : (key : Bytes) (m : Store A) → lookup key (delete key m) ≡ none
  lookup-delete key [] = refl
  lookup-delete key ((k, w) ∷ m) = elim (Bool-cases (equal key k)) [
    | inl e ↦ rw e (lookup-delete key m)
    | inr e ↦ rw (e, e) (lookup-delete key m)
  ]

  pub lookup-delete_other :
      (key other : Bytes) (m : Store A)
      → equal other key ≡ false
      → lookup other (delete key m) ≡ lookup other m
  lookup-delete_other key other [] d = refl
  lookup-delete_other key other ((k, w) ∷ m) d = elim (Bool-cases (equal key k)) [
    | inl e ↦ rw (e, equal_other key other k e d) (lookup-delete_other key other m d)
    | inr e ↦
        rw e (ap (λ r. if equal other k then some w else r) (lookup-delete_other key other m d))
  ]
