-- ===== src/Http/Header/Locks.antt =====
-- The locks that the header's methods leave.
use jotpot_server.Base.{
  ℕ, zero, suc, ◌-◌, ◌≡◌, refl, sym, ap, ◌∙◌, arith, Bool, true, false, Option, none, some, List,
  [], ◌∷◌, Bytes, inl, inr, length, if◌then◌else◌, ◌==◌,
}
use jotpot_server.Base.Int.{pos}
use jotpot_server.Http.Header.Values.{add_raw_key_alone}
use jotpot_server.Http.Header.{
  Header, has, process_values, get_key, set_values, add, add_unsafe, unsafe_adder, adder_add,
  release, read_lock, read_unlock, err_no_header_to_release, Meanwhile,
}

subtract : (n : ℕ) → suc n - 1 ≡ n
subtract n = omega arith

-- `SetValues` and `Add` release the processor's lock.
pub set_add_readers :
    (meanwhile : Meanwhile) (key value : Bytes) (values : List Bytes) (h : Header)
    → ((set_values meanwhile key values h).processor_readers ≡ h.processor_readers)
      × ((add meanwhile key value h).processor_readers ≡ h.processor_readers)
unfolding set_values add
set_add_readers meanwhile key value values h =
    (subtract h.processor_readers, subtract h.processor_readers)

has_end :
    (h : Header) (a : Bool) (b : ℕ → Bool) (n : ℕ)
    → (elim n as (λ x. Header × Bool) [
      | zero ↦ (read_lock h, a)
      | suc m ↦ (read_unlock (read_lock h), b m)
    ]).0.processor_readers
      ≡ (if n == 0 then suc h.processor_readers else h.processor_readers)
has_end h a b zero = refl
has_end h a b (suc n) = ground arith

-- A call of `Has` leaves the processor's lock as it found it, except that with no values (after
-- processing) one read lock is never released.
pub has_readers :
    (key : Bytes) (values : List Bytes) (h : Header)
    → (has key values h).0.processor_readers ≡ (
        if length (
            process_values h.processor
              (get_key h.processor key)
              values
              (pos 0)
              (pos (length values)))
          == 0
        then suc h.processor_readers
        else h.processor_readers)
unfolding has
has_readers key values h = has_end h true _ (
    length
      (process_values h.processor (get_key h.processor key) values (pos 0) (pos (length values))))

-- `Add` for each pair, through an adder.
abbrev pub adder_add_all : List (Bytes × Bytes) → Option Header → Option (Option Header)
adder_add_all [] a = some a
adder_add_all ((key, value) ∷ pairs) a = elim (adder_add key value a) [
  | none ↦ none
  | some a' ↦ adder_add_all pairs a'
]

-- `Add` for each pair, with no other goroutine at work.
abbrev pub add_all : List (Bytes × Bytes) → Header → Header
add_all [] h = h
add_all ((key, value) ∷ pairs) h = add_all pairs (add (λ m. m) key value h)

-- An adder's header while it is held.
abbrev pub held : Header → Header
held h = record h { key_mod_locked = true; processor_readers = suc h.processor_readers }

pub add_unsafe-held :
    (key value : Bytes) (h : Header)
    → add_unsafe key value (held h) ≡ held (add (λ m. m) key value h)
unfolding add add_unsafe
add_unsafe-held key value h =
    rw
      (
        subtract h.processor_readers,
        add_raw_key_alone h.processor (get_key h.processor key) value h.values,
      )
      refl

add_all-held :
    (pairs : List (Bytes × Bytes)) (h : Header)
    → adder_add_all pairs (some (held h)) ≡ some (some (held (add_all pairs h)))
unfolding adder_add
add_all-held [] h = refl
add_all-held ((key, value) ∷ pairs) h =
    rw (add_unsafe-held key value h) (add_all-held pairs (add (λ m. m) key value h))

pub add_all-key_mod_locked :
    (pairs : List (Bytes × Bytes)) (h : Header)
    → (add_all pairs h).key_mod_locked ≡ h.key_mod_locked
unfolding add
add_all-key_mod_locked [] h = refl
add_all-key_mod_locked ((key, value) ∷ pairs) h =
    add_all-key_mod_locked pairs (add (λ m. m) key value h)

pub release-held : (h : Header) → h.key_mod_locked ≡ false → release (some (held h)) ≡ (none, inl h)
unfolding release
release-held h u =
    rw (subtract h.processor_readers)
      (ap (λ b. (none, inl (record h { key_mod_locked = b }))) (sym u))

-- An adder on a header whose keys are not locked adds as `Add` does, and its release gives the header
-- back with the locks as they were; a second release is an error.
pub release-adder :
    (pairs : List (Bytes × Bytes)) (h : Header)
    → h.key_mod_locked ≡ false
    → (adder_add_all pairs (unsafe_adder h) ≡ some (some (held (add_all pairs h))))
      × (release (some (held (add_all pairs h))) ≡ (none, inl (add_all pairs h)))
      × (release none ≡ (none, inr err_no_header_to_release))
unfolding unsafe_adder release
release-adder pairs h u = (
  add_all-held pairs h,
  release-held (add_all pairs h) (add_all-key_mod_locked pairs h ∙ u),
  refl,
)
