-- ===== src/Http/Heads/Written/Fields.antt =====
-- The lines that the formatter writes of a header, as fields that the parser reads.
use jotpot_server.Base.{
  ◌≡◌, refl, sym, ap, ◌∙◌, List, [], ◌∷◌, ◌++◌, arith, none, inl, inr, ◌⊎◌, Bytes, All,
  append_assoc, length-append, All-append, Store,
}
use mathlib.Core.List.{append-nil}
use jotpot_server.Http.Chars.{is_v_char, is_whitespace}
use jotpot_server.Http.Header.{for_each}
use jotpot_server.Http.Heads.{value_pieces, field_pieces, append_all, format_headers}
use jotpot_server.Http.Heads.Scan.{IsLong, IsToken, IsVChar, crlf}
use jotpot_server.Http.Heads.Fields.{
  HeaderField, Later, IsField, AreLater, words, field_value, field_line,
}
use jotpot_server.Http.Heads.RoundTrip.{field_lines, add_fields}

-- A name of token characters, and values of visible ASCII characters, each at least one.
abbrev pub IsWord : Bytes → Type 0
IsWord v = All IsVChar v × IsLong (0 ∷ v)

pub record IsPlain (entry : Bytes × List Bytes) : Type 0 where
  pub key_tokens : All IsToken entry.0
  pub key_starts : IsLong (0 ∷ entry.0)
  pub values_words : All IsWord entry.1

-- The values of a key with ", " between them.
abbrev pub joined : Bytes → List Bytes → Bytes
joined v [] = v
joined v (w ∷ vs) = v ++ (44 ∷ 32 ∷ joined w vs)

-- The keys with values, in the order in which the map yields them.
abbrev pub add_joined : {H : Type 0} → (Bytes → Bytes → H → H) → Store (List Bytes) → H → H
add_joined add [] h = h
add_joined add ((key, []) ∷ m) h = add_joined add m h
add_joined add ((key, v ∷ vs) ∷ m) h = add_joined add m (add key (joined v vs) h)

-- The first word of what is joined, and the later ones.
with_comma : Bytes → List Bytes → Bytes
with_comma v [] = v
with_comma v (w ∷ vs) = v ++ 44 ∷ []

later_values : List Bytes → List Later
later_values [] = []
later_values (w ∷ vs) = record { gap = 32 ∷ []; word = with_comma w vs } ∷ later_values vs

words-joined :
    (v : Bytes) (vs : List Bytes) → with_comma v vs ++ words (later_values vs) ≡ joined v vs
unfolding with_comma later_values
words-joined v [] = append-nil v
words-joined v (w ∷ vs) =
    simp append_assoc (ap (λ (x : Bytes). v ++ (44 ∷ 32 ∷ x)) (words-joined w vs))

pub as_field : Bytes → Bytes → List Bytes → HeaderField
as_field key v vs = record {
  key = key;
  before = 32 ∷ [];
  first = with_comma v vs;
  later = later_values vs;
  after = [];
}

abbrev pub as_fields : Store (List Bytes) → List HeaderField
as_fields [] = []
as_fields ((key, []) ∷ m) = as_fields m
as_fields ((key, v ∷ vs) ∷ m) = as_field key v vs ∷ as_fields m

IsLong-comma : (v : Bytes) → IsLong (0 ∷ v) → IsLong (v ++ 44 ∷ [])
IsLong-comma v h = omega (arith, length-append v (44 ∷ []))

with_comma-IsWord : (v : Bytes) (vs : List Bytes) → IsWord v → IsWord (with_comma v vs)
unfolding with_comma
with_comma-IsWord v [] h = h
with_comma-IsWord v (w ∷ vs) h = (
  All-append IsVChar v (44 ∷ []) h.0 (unfold is_v_char in refl, tt),
  omega (arith, IsLong-comma v h.1),
)

later-IsLong :
    (w : Bytes) (vs : List Bytes)
    → IsLong (0 ∷ w)
    → IsLong (with_comma w vs) ⊎ ((later_values vs ≡ []) × (◌≡◌ {A = Bytes} [] []))
unfolding with_comma later_values
later-IsLong w [] h = inr (refl, refl)
later-IsLong w (v ∷ vs) h = inl (IsLong-comma w h)

AreLater-later_values : (vs : List Bytes) → All IsWord vs → AreLater (later_values vs) []
unfolding later_values
AreLater-later_values [] h = tt
AreLater-later_values (w ∷ vs) h =
    let word = with_comma-IsWord w vs h.0 in
    (
      record {
        gap_blank = (unfold is_whitespace in refl, tt);
        has_gap = omega arith;
        word_v_chars = word.0;
        has_word = word.1;
        long = later-IsLong w vs h.0.1;
      },
      AreLater-later_values vs h.1,
    )

as_field-IsField :
    (key v : Bytes) (vs : List Bytes) → IsPlain (key, v ∷ vs) → IsField (as_field key v vs)
unfolding as_field
as_field-IsField key v vs p =
    let word = with_comma-IsWord v vs p.values_words.0 in
    record {
      key_tokens = p.key_tokens;
      key_starts = p.key_starts;
      before_blank = (unfold is_whitespace in refl, tt);
      first_word = word.0;
      later_words = AreLater-later_values vs p.values_words.1;
      after_blank = tt;
      has_words = inl word.1;
    }

abbrev pub all_bytes : List Bytes → Bytes
all_bytes [] = []
all_bytes (p ∷ ps) = p ++ all_bytes ps

append_all-all_bytes : (out : Bytes) (ps : List Bytes) → append_all out ps ≡ out ++ all_bytes ps
unfolding append_all
append_all-all_bytes out [] = sym (append-nil out)
append_all-all_bytes out (p ∷ ps) =
    append_all-all_bytes (out ++ p) ps ∙ append_assoc out p (all_bytes ps)

all_bytes-value_pieces :
    (v : Bytes) (vs : List Bytes) → all_bytes (value_pieces v vs) ≡ joined v vs ++ crlf
unfolding value_pieces
all_bytes-value_pieces v [] = refl
all_bytes-value_pieces v (w ∷ vs) =
    rw (all_bytes-value_pieces w vs) (sym (append_assoc v (44 ∷ 32 ∷ joined w vs) crlf))

-- The value of a field that is written is its values with ", " between them.
field_value-as_field :
    (key v : Bytes) (vs : List Bytes) → field_value (as_field key v vs) ≡ joined v vs
unfolding as_field
field_value-as_field key v vs = words-joined v vs

append_all-field :
    (out key v : Bytes) (vs : List Bytes)
    → append_all out (field_pieces key (v ∷ vs)) ≡ out ++ field_line (as_field key v vs)
unfolding field_pieces as_field
append_all-field out key v vs =
    append_all-all_bytes out (key ∷ (58 ∷ 32 ∷ []) ∷ value_pieces v vs)
    ∙ ap (λ x. out ++ (key ++ (58 ∷ 32 ∷ x)))
        (all_bytes-value_pieces v vs
          ∙ ap (λ x. x ++ crlf) (sym (words-joined v vs))
          ∙ append_assoc (with_comma v vs) (words (later_values vs)) crlf)

abbrev pub lines_of : List HeaderField → Bytes
lines_of [] = []
lines_of (f ∷ fs) = field_line f ++ lines_of fs

pub field_lines-lines_of : (fs : List HeaderField) → field_lines fs ≡ lines_of fs ++ crlf
field_lines-lines_of [] = refl
field_lines-lines_of (f ∷ fs) =
    rw (field_lines-lines_of fs) (sym (append_assoc (field_line f) (lines_of fs) crlf))

pub for_each-lines_of :
    (m : Store (List Bytes)) (out : Bytes)
    → (for_each {E = Unit {0}}
        (λ key vs o. (append_all o (field_pieces key vs), none))
        m
        out
        none).0
      ≡ out ++ lines_of (as_fields m)
unfolding for_each
for_each-lines_of [] out = sym (append-nil out)
for_each-lines_of ((key, []) ∷ m) out = for_each-lines_of m out
for_each-lines_of ((key, v ∷ vs) ∷ m) out =
    rw (append_all-field out key v vs, for_each)
      (for_each-lines_of m (out ++ field_line (as_field key v vs))
        ∙ append_assoc out (field_line (as_field key v vs)) (lines_of (as_fields m)))

pub format_headers-lines_of : (m : Store (List Bytes)) → format_headers m ≡ lines_of (as_fields m)
unfolding format_headers
format_headers-lines_of m = for_each-lines_of m []

pub as_fields-IsField : (m : Store (List Bytes)) → All IsPlain m → All IsField (as_fields m)
as_fields-IsField [] p = tt
as_fields-IsField ((key, []) ∷ m) p = as_fields-IsField m p.1
as_fields-IsField ((key, v ∷ vs) ∷ m) p = (as_field-IsField key v vs p.0, as_fields-IsField m p.1)

key-as_field : (key v : Bytes) (vs : List Bytes) → (as_field key v vs).key ≡ key
unfolding as_field
key-as_field key v vs = refl

module _ {H : Type 0} (add : Bytes → Bytes → H → H) where
  pub add_fields-as_fields :
      (m : Store (List Bytes)) (h : H) → add_fields add (as_fields m) h ≡ add_joined add m h
  add_fields-as_fields [] h = refl
  add_fields-as_fields ((key, []) ∷ m) h = add_fields-as_fields m h
  add_fields-as_fields ((key, v ∷ vs) ∷ m) h =
      rw (key-as_field key v vs, field_value-as_field key v vs)
        (add_fields-as_fields m (add key (joined v vs) h))
