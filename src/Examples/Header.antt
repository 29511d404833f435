-- ===== src/Examples/Header.antt =====
-- Runs and theorems of the header store at concrete inputs.
use jotpot_server.Base.{
  ℕ, ◌%◌, ◌≡◌, ◌↔◌, refl, true, false, Option, List, [], ◌∷◌, some, none, map, codes, Bytes, length,
  inl, inr,
}
use jotpot_server.Base.Int.{pos}
use jotpot_server.Http.Header.{
  Header, Processor, Meanwhile, new_header, get_key, process_values, get_values_raw_key, set_values,
  has, mark, has_from, unsafe_adder, release, err_no_header_to_release, set_values_raw,
}
use jotpot_server.Http.Header.Matching.{Contained, has_correct}
use jotpot_server.Http.Header.Locks.{add_all, adder_add_all, held, release-adder}

-- Keys are the same whatever the case of their letters.
abbrev caseless : Processor
caseless = record { key_transforms = map (λ b. b % 32) ∷ []; values_processors = [] }

abbrev accept : Bytes
accept = codes "Accept"

abbrev raw_accept : Bytes
raw_accept = map (λ b. b % 32) accept

abbrev te : Bytes
te = codes "TE"

abbrev texts : List Bytes
texts = codes "a" ∷ codes "b" ∷ codes "a" ∷ []

abbrev header : Header
header = set_values (λ m. m) accept texts (new_header caseless)

abbrev intruder : Meanwhile
intruder m = (raw_accept, codes "c" ∷ []) ∷ m

has_twice : (has (codes "ACCEPT") (codes "a" ∷ codes "a" ∷ []) header).1 ≡ true
unfolding has set_values set_values_raw new_header get_key process_values get_values_raw_key
    has_from mark
has_twice = refl

has_thrice : (has accept (codes "a" ∷ codes "a" ∷ codes "a" ∷ []) header).1 ≡ false
unfolding has set_values set_values_raw new_header get_key process_values get_values_raw_key
    has_from mark
has_thrice = refl

has_correct_example :
    ((has te texts header).1 ≡ true)
    ↔ Contained
        (process_values header.processor
          (get_key header.processor te)
          texts
          (pos 0)
          (pos (length texts)))
        (get_values_raw_key header.values (get_key header.processor te))
has_correct_example = has_correct te texts header

-- Drops the first value, and fails if there is none.
abbrev shorten : Bytes → List Bytes → List Bytes × Option ℕ
shorten key [] = ([], some 1)
shorten key (v ∷ vs) = (vs, none)

abbrev pairs : List (Bytes × Bytes)
pairs = (te, codes "gzip") ∷ (accept, codes "d") ∷ []

header_unlocked : header.key_mod_locked ≡ false
unfolding set_values new_header
header_unlocked = refl

release-adder_example :
    (adder_add_all pairs (unsafe_adder header) ≡ some (some (held (add_all pairs header))))
    × (release (some (held (add_all pairs header))) ≡ (none, inl (add_all pairs header)))
    × (release none ≡ (none, inr err_no_header_to_release))
release-adder_example = release-adder pairs header header_unlocked
