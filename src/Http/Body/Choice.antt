-- ===== src/Http/Body/Choice.antt =====
-- Which reader and which writer a message's body gets (http/http1/bodyReader.go and BodyWriter of
-- http/http1/bodyWriter.go). `hasBody` is an argument, as is whether the request is a HEAD request;
-- the raw reader and the final writer are handles of the type B, and a generator of a pipe changes
-- the world W.
pub mod Lengths
use jotpot_server.Base.{
  ℕ, zero, suc, Bool, true, false, not, ◌||◌, Option, none, some, List, [], ◌∷◌, if◌then◌else◌,
  Bytes, equal, codes, ◌⊎◌, inl, inr,
}
use jotpot_server.Base.Int.{ℤ, pos, negsuc}
use jotpot_server.Base.Decimal.{NumError, parse_uint, format_uint}
use jotpot_server.Http.Header.{Header, get_values_raw_key, set_values, add}
use jotpot_server.Http.Message.{set_alone, del_alone}
use jotpot_server.Http.Metadata.{
  values_of, content_length, transfer_encoding, ends_chunked, without_last,
}
use jotpot_server.Http.Encodings.{Encoding, get_reader_pipe_generators, get_writer_pipe_generators}
use jotpot_server.Jps.Pipe.{Generator, from, to}

pub data BodyError (E : Type 0) : Type 0 where
  err_content_length_and_transfer_encoding err_must_chunk_last : BodyError E
  err_unsupported_transfer_encoding err_too_many_content_length : BodyError E
  pipe_failed : E → BodyError E
  malformed_content_length : NumError → BodyError E

-- A reader: no bytes, the raw reader up to a number of bytes, the raw reader, a chain of pipes, or
-- the nil chain behind a generator's error.
pub data BodyReaderKind (B : Type 0) : Type 0 where
  no_bytes raw broken_chain : BodyReaderKind B
  limited : ℕ → BodyReaderKind B
  chain : List B → BodyReaderKind B

pub record BodyReader (B : Type 0) : Type 0 where
  pub length : ℤ
  pub reader : Option (BodyReaderKind B)

unfoldable pub new_body_reader : {B : Type 0} → BodyReader B
new_body_reader = record { length = negsuc 1; reader = none }

-- A code before the last one is "chunked".
unfoldable pub chunked_before_last : List Bytes → Bool
chunked_before_last [] = false
chunked_before_last (c ∷ []) = false
chunked_before_last (c ∷ d ∷ cs) = equal c (codes "chunked") || chunked_before_last (d ∷ cs)

-- The error of a call, or that an index is out of range.
pub data Outcome (E A : Type 0) : Type 0 where
  returns : A → Option (BodyError E) → Outcome E A
  panics : Outcome E A

module _ {W B E V : Type 0} (to_lower : Bytes → Bytes)
    (encodings : List (Encoding (Generator W B E) V)) (raw_reader : B) where
  unfoldable pub piped_body : List Bytes → BodyReader B → W → Outcome E (BodyReader B × W)
  piped_body cs r w = elim (get_reader_pipe_generators to_lower encodings cs) [
    | none ↦ panics
    | some none ↦ returns (r, w) (some err_unsupported_transfer_encoding)
    | some (some pipes) ↦
        let (w', made) = from raw_reader (pipes ∷ []) w in
        elim made [
          | inr e ↦ returns (record r { reader = some broken_chain }, w') (some (pipe_failed e))
          | inl bs ↦ returns (record { length = negsuc 0; reader = some (chain bs) }, w') none
        ]
  ]

  unfoldable pub body_of : List Bytes → List Bytes → BodyReader B → W → Outcome E (BodyReader B × W)
  body_of [] [] r w = returns (record { length = negsuc 0; reader = some raw }, w) none
  body_of [] (l ∷ []) r w = elim (parse_uint 63 l) [
    | inr e ↦ returns (r, w) (some (malformed_content_length e))
    | inl n ↦ returns (record { length = pos n; reader = some (limited n) }, w) none
  ]
  body_of [] (_ ∷ _ ∷ _) r w = returns (r, w) (some err_too_many_content_length)
  body_of (c ∷ cs) [] r w =
      let piped = piped_body (c ∷ cs) r w in
      if chunked_before_last (c ∷ cs) then returns (r, w) (some err_must_chunk_last) else piped
  body_of (c ∷ cs) (_ ∷ _) r w = returns (r, w) (some err_content_length_and_transfer_encoding)

  unfoldable pub get_body : Bool → Bool → Header → BodyReader B → W → Outcome E (BodyReader B × W)
  get_body has_body is_head h r w =
      if not has_body || is_head
      then returns (record { length = pos 0; reader = some no_bytes }, w) none
      else body_of (values_of transfer_encoding h) (values_of content_length h) r w

  -- `Body`, and the state that `BodyLength` reads the length of.
  unfoldable pub body : Bool → Bool → Header → BodyReader B → W → Outcome E (BodyReader B × W)
  body has_body is_head h r w = elim r.reader [
    | some k ↦ returns (r, w) none
    | none ↦ get_body has_body is_head h r w
  ]

-- BodyWriter.BodyLength.
unfoldable pub lengths_length : {E : Type 0} → List Bytes → ℤ × Option (BodyError E)
lengths_length [] = (negsuc 0, none)
lengths_length (l ∷ []) = elim (parse_uint 63 l) [
  | inr e ↦ (negsuc 1, some (malformed_content_length e))
  | inl n ↦ (pos n, none)
]
lengths_length (_ ∷ _ ∷ _) = (negsuc 1, some err_too_many_content_length)

unfoldable pub body_length : {E : Type 0} → Bool → Header → ℤ × Option (BodyError E)
body_length is_head h =
    if is_head then (pos 0, none) else lengths_length (values_of content_length h)

-- BodyWriter.SetBodyLength, which panics below -1.
unfoldable pub set_length : ℕ → Header → Header
set_length n h =
    let h' = set_alone content_length (format_uint n) h in
    let cs = values_of transfer_encoding h' in
    if ends_chunked cs then set_values (λ m. m) transfer_encoding (without_last cs) h' else h'

unfoldable pub set_no_length : Header → Header
set_no_length h =
    let h' = del_alone content_length h in
    if ends_chunked (values_of transfer_encoding h')
    then h'
    else add (λ m. m) (codes "Transfer-Encodings") (codes "chunked") h'

unfoldable pub set_body_length : ℤ → Header → Option Header
set_body_length (pos n) h = some (set_length n h)
set_body_length (negsuc zero) h = some (set_no_length h)
set_body_length (negsuc (suc n)) h = none

-- A writer: none of the body, at most a number of bytes of it, a chain of pipes, or the nil chain
-- behind a generator's error.
pub data BodyWriterKind (B : Type 0) : Type 0 where
  no_body broken_chain : BodyWriterKind B
  limited : ℤ → BodyWriterKind B
  chain : List B → BodyWriterKind B

-- The generators, where a nil one is none and calling it panics.
unfoldable pub all_there : {A : Type 0} → List (Option A) → Option (List A)
all_there [] = some []
all_there (none ∷ gs) = none
all_there (some g ∷ gs) = elim (all_there gs) [ none ↦ none | some l ↦ some (g ∷ l) ]

module _ {W B E R : Type 0} (encodings : List (Encoding R (Generator W B E)))
    (final_writer : B) where
  unfoldable pub piped_writer : List Bytes → W → Outcome E (Option (BodyWriterKind B) × W)
  piped_writer cs w = elim (get_writer_pipe_generators encodings cs) [
    | none ↦ panics
    | some (pipes, false) ↦ returns (none, w) (some err_unsupported_transfer_encoding)
    | some (pipes, true) ↦ elim (all_there pipes) [
      | none ↦ panics
      | some gs ↦
          let (w', made) = to final_writer (gs ∷ []) w in
          elim made [
            | inr e ↦ returns (some broken_chain, w') (some (pipe_failed e))
            | inl bs ↦ returns (some (chain bs), w') none
          ]
    ]
  ]

  -- `Body` of the writer, of the length that `BodyLength` gives; the codes are those of the raw key.
  unfoldable pub writer_of :
      ℤ × Option (BodyError E) → List Bytes → W → Outcome E (Option (BodyWriterKind B) × W)
  writer_of (l, some e) cs w = returns (none, w) (some e)
  writer_of (pos n, none) cs w = returns (some (limited (pos n)), w) none
  writer_of (negsuc zero, none) cs w =
      let piped = piped_writer cs w in
      if chunked_before_last cs then returns (none, w) (some err_must_chunk_last) else piped
  writer_of (negsuc (suc n), none) cs w = returns (some (limited (negsuc (suc n))), w) none

  unfoldable pub body_writer :
      Bool
      → Bool
      → Header
      → Option (BodyWriterKind B)
      → W
      → Outcome E (Option (BodyWriterKind B) × W)
  body_writer has_body is_head h (some k) w = returns (some k, w) none
  body_writer true is_head h none w =
      writer_of (body_length is_head h) (get_values_raw_key h.values transfer_encoding) w
  body_writer false is_head h none w = returns (some no_body, w) none
