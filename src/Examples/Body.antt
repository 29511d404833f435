-- ===== src/Examples/Body.antt =====
-- Runs and theorems of the readers and writers of bodies at concrete inputs.
use jotpot_server.Base.{
  ℕ, ◌≡◌, ◌++◌, [], ◌∷◌, List, refl, arith, true, false, Option, none, some, inr, Bytes, codes,
  length, equal, All,
}
use jotpot_server.Base.Int.{pos, negsuc, wrap_int64, ◌+ℤ◌, ◌-ℤ◌}
use jotpot_server.Http.Body.{limit_write, write_part, written, err_body_length_exceded}
use jotpot_server.Http.Header.{
  Header, new_header, get_key, set_values, set_values_raw, get_values, get_key_safe,
  get_values_raw_key, process_values,
}
use jotpot_server.Http.Metadata.{values_of, transfer_encoding, content_length}
use jotpot_server.Http.Metadata.Fields.{KeepsKeys}
use jotpot_server.Http.Encodings.{Encoding}
use jotpot_server.Jps.Pipe.{Generator}
use jotpot_server.Http.Body.Choice.{
  new_body_reader, limited, raw, returns, get_body, body_length, set_body_length,
  err_content_length_and_transfer_encoding,
}
use jotpot_server.Http.Body.Choice.Lengths.{
  transfer_encodings, get_body-set_body_length, get_body-set_body_length_coded,
  get_body-set_no_length,
}
use jotpot_server.Examples.Processors.{lowering, lowering-KeepsLower, lower_between-kept}
use jotpot_server.Http.Header.Values.{IsLower}

-- A writer that keeps all that it is given.
abbrev keep : Bytes → Bytes → ℕ × Option ℕ × Bytes
keep buf w = (length buf, none, w ++ buf)

-- Four bytes to a writer limited to three: one byte is written.
limit_write-four :
    limit_write keep (record { i = pos 0; l = pos 3 }) (codes "abcd") []
    ≡ written 1 (some err_body_length_exceded) (codes "a")
unfolding limit_write write_part wrap_int64 ◌+ℤ◌ ◌-ℤ◌
limit_write-four = refl

abbrev coded : List Bytes → Header
coded cs = set_values (λ m. m) transfer_encoding cs (new_header lowering)

coded-KeepsKeys : (cs : List Bytes) → KeepsKeys (coded cs)
unfolding get_key set_values new_header
coded-KeepsKeys cs = record {
  keeps_lower = lowering-KeepsLower;
  range_length = refl;
  range_encoding = refl;
  length_encoding = refl;
}

coded-values : (cs : List Bytes) → All IsLower cs → values_of transfer_encoding (coded cs) ≡ cs
unfolding get_values get_key_safe get_values_raw_key get_key set_values set_values_raw
    process_values new_header
coded-values cs h = lower_between-kept (pos 0) (pos (length cs)) 0 cs h

chunked-IsLower : IsLower (codes "chunked")
chunked-IsLower = (refl, (refl, (refl, (refl, (refl, (refl, (refl, tt)))))))

gzip-IsLower : IsLower (codes "gzip")
gzip-IsLower = (refl, (refl, (refl, (refl, tt))))

empty-KeepsKeys : KeepsKeys (new_header lowering)
unfolding get_key new_header
empty-KeepsKeys = record {
  keeps_lower = lowering-KeepsLower;
  range_length = refl;
  range_encoding = refl;
  length_encoding = refl;
}

empty-values : values_of transfer_encoding (new_header lowering) ≡ []
unfolding new_header get_values get_key_safe get_values_raw_key get_key
empty-values = refl

-- Handles and generators are numbers; there are no encodings.
abbrev encodings : List (Encoding (Generator ℕ ℕ ℕ) ℕ)
encodings = []

abbrev same : Bytes → Bytes
same s = s

get_body-set_body_length_example :
    (g : Header) × (set_body_length (pos 5) (coded (codes "chunked" ∷ [])) ≡ some g)
    × (body_length {E = ℕ} false g ≡ (pos 5, none))
    × (get_body same encodings 1 true false g new_body_reader 0
        ≡ returns (record { length = pos 5; reader = some (limited 5) }, 0) none)
get_body-set_body_length_example =
    get_body-set_body_length same encodings 1 5 (coded (codes "chunked" ∷ [])) new_body_reader 0
      (coded-KeepsKeys (codes "chunked" ∷ [])) (omega arith)
      (inr (coded-values (codes "chunked" ∷ []) (chunked-IsLower, tt)))

get_body-set_body_length_coded_example :
    (g : Header) × (set_body_length (pos 5) (coded (codes "gzip" ∷ codes "chunked" ∷ [])) ≡ some g)
    × (values_of transfer_encoding g ≡ codes "gzip" ∷ [])
    × (get_body same encodings 1 true false g new_body_reader 0
        ≡ returns (new_body_reader, 0) (some err_content_length_and_transfer_encoding))
get_body-set_body_length_coded_example =
    get_body-set_body_length_coded same encodings 1 5 (coded (codes "gzip" ∷ codes "chunked" ∷ []))
      (codes "gzip") [] new_body_reader 0 (coded-KeepsKeys (codes "gzip" ∷ codes "chunked" ∷ []))
      (gzip-IsLower, tt)
      (coded-values (codes "gzip" ∷ codes "chunked" ∷ []) (gzip-IsLower, (chunked-IsLower, tt)))

encodings_apart :
    (equal (get_key lowering transfer_encoding) (get_key lowering (codes "Transfer-Encodings"))
      ≡ false)
    × (equal (get_key lowering content_length) (get_key lowering (codes "Transfer-Encodings"))
        ≡ false)
unfolding get_key
encodings_apart = (refl, refl)

get_body-set_no_length_example :
    (g : Header) × (set_body_length (negsuc 0) (new_header lowering) ≡ some g)
    × (values_of transfer_encoding g ≡ [])
    × (values_of transfer_encodings g
        ≡ values_of transfer_encodings (new_header lowering) ++ codes "chunked" ∷ [])
    × (get_body same encodings 1 true false g new_body_reader 0
        ≡ returns (record { length = negsuc 0; reader = some raw }, 0) none)
get_body-set_no_length_example =
    get_body-set_no_length same encodings 1 (new_header lowering) new_body_reader 0 empty-KeepsKeys
      (unfold new_header in encodings_apart.0) (unfold new_header in encodings_apart.1)
      (unfold new_header get_values get_key_safe get_values_raw_key get_key in tt) empty-values
