-- ===== src/Http/Metadata/Names.antt =====
-- The other fields of http/http1/metadata.go: codings, languages, location, type string, time of
-- modification and entity tag. ParseTime and Format of Go's library are parameters, and what
-- ParseTime returns beside an error is the zero time.
use jotpot_server.Base.{Bool, true, Option, none, some, List, [], ◌∷◌, Bytes, codes, ◌⊎◌, inl, inr}
use jotpot_server.Base.Int.{ℤ, pos}
use jotpot_server.Http.Header.{Header, get_value, set_values}
use jotpot_server.Http.Message.{set_alone}
use jotpot_server.Http.Metadata.{
  MetadataError, values_of, err_multiple_content_location_headers,
  err_multiple_content_type_headers, err_multiple_last_modified_headers,
}

unfoldable pub encodings : Header → List Bytes
encodings h = values_of (codes "Content-Encoding") h

unfoldable pub set_encodings : List Bytes → Header → Header
set_encodings codings h = set_values (λ m. m) (codes "Content-Encoding") codings h

unfoldable pub languages : Header → List Bytes
languages h = values_of (codes "Content-Language") h

unfoldable pub set_languages : List Bytes → Header → Header
set_languages langs h = set_values (λ m. m) (codes "Content-Language") langs h

-- The first value, and an error if there are more.
abbrev pub first_of : MetadataError → List Bytes → Bytes × Option MetadataError
first_of e [] = ([], none)
first_of e (v ∷ []) = (v, none)
first_of e (v ∷ _ ∷ _) = (v, some e)

unfoldable pub location : Header → Bytes × Option MetadataError
location h = first_of err_multiple_content_location_headers (values_of (codes "Content-Location") h)

unfoldable pub set_location : Bytes → Header → Header
set_location l h = set_alone (codes "Content-Location") l h

unfoldable pub type_string : Header → Bytes × Option MetadataError
type_string h = first_of err_multiple_content_type_headers (values_of (codes "Content-Type") h)

unfoldable pub set_type_string : Bytes → Header → Header
set_type_string mt h = set_alone (codes "Content-Type") mt h

-- The time of the first value; its error comes before that of more values.
abbrev pub time_of : {E : Type 0} → (Bytes → ℤ ⊎ E) → List Bytes → ℤ × Option (E ⊎ MetadataError)
time_of parse [] = (pos 0, none)
time_of parse (v ∷ []) = elim (parse v) [ inl t ↦ (t, none) | inr e ↦ (pos 0, some (inl e)) ]
time_of parse (v ∷ _ ∷ _) = elim (parse v) [
  | inl t ↦ (t, some (inr err_multiple_last_modified_headers))
  | inr e ↦ (pos 0, some (inl e))
]

unfoldable pub mtime : {E : Type 0} → (Bytes → ℤ ⊎ E) → Header → ℤ × Option (E ⊎ MetadataError)
mtime parse h = time_of parse (values_of (codes "Last-Modified") h)

unfoldable pub set_mtime : (ℤ → Bytes) → ℤ → Header → Header
set_mtime format t h = set_alone (codes "Last-Modified") (format t) h

-- The tag is always said to be strong.
unfoldable pub e_tag : Header → Bytes × Bool
e_tag h = ((get_value h (codes "etag")).1, true)

unfoldable pub set_e_tag : Bytes → Bool → Header → Header
set_e_tag tag strong h = set_alone (codes "etag") tag h
