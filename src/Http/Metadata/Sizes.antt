-- ===== src/Http/Metadata/Sizes.antt =====
-- Setting the size of a resource, and reading it back (http/http1/metadata.go).
use jotpot_server.Base.{
  ℕ, ◌^◌, ◌<◌, ◌≡◌, refl, ap, ◌∙◌, true, false, none, some, List, [], ◌∷◌, ◌++◌, Bytes, equal,
  codes, inl, inr, lookup, Bool-cases,
}
use jotpot_server.Base.Int.{ℤ, pos, negsuc}
use jotpot_server.Base.Decimal.{format_int, parse-format_uint}
use jotpot_server.Http.Header.{Header, get_key, get_key_safe, get_values, get_values_raw_key}
use jotpot_server.Http.Metadata.{
  values_of, content_range, content_length, transfer_encoding, split_content_range, size,
  ends_chunked, set_content_length, number, size_of_lengths, set_size, set_length_or_remove,
  remove_content_length,
}
use jotpot_server.Http.Metadata.Fields.{KeepsKeys, set_content_length-values, locked_alone}
use jotpot_server.Http.Header.{add, del, appended}
use jotpot_server.Http.Header.Values.{get_values-add, appended_plain, del_raw_key_correct}
use jotpot_server.Http.Message.{del_alone, last_value}

-- Without a Content-Range the size is the Content-Length.
size-plain :
    (h : Header)
    → values_of content_range h ≡ []
    → size h ≡ some (size_of_lengths (values_of content_length h))
unfolding size split_content_range
size-plain h e = rw (size, split_content_range, e) refl

size_of_lengths-written :
    (n : ℕ) → n < 2 ^ 63 → size_of_lengths (format_int (pos n) ∷ []) ≡ (pos n, none)
unfolding format_int
size_of_lengths-written n i = rw (number, parse-format_uint 63 n i) refl

-- Setting a size where there is no Content-Range.
set_size-plain :
    (l : ℤ) (h : Header)
    → values_of content_range h ≡ []
    → set_size l h ≡ (elim (set_length_or_remove l h) [ none ↦ none | some g ↦ some (g, none) ])
unfolding set_size split_content_range
set_size-plain l h e = rw (set_size, split_content_range, e) refl

-- Deleting a field with no other goroutines.
pub del_alone-values :
    (key other : Bytes) (h : Header)
    → (values_of key (del_alone key h) ≡ [])
      × (equal (get_key h.processor other) (get_key h.processor key) ≡ false
          → values_of other (del_alone key h) ≡ values_of other h)
unfolding get_values get_key_safe del get_values_raw_key
del_alone-values key other h =
    let raw = get_key h.processor key in
    let d = del_raw_key_correct (λ m. m) raw (get_key h.processor other) h.values in
    (
      rw (get_values_raw_key, d.0) refl,
      λ o. elim (d.2 o) [
        | inl e ↦ rw (get_values_raw_key, e) refl
        | inr e ↦ rw (get_values_raw_key, e) refl
      ],
    )

last_value-append : (vs : List Bytes) (v : Bytes) → last_value (vs ++ v ∷ []) ≡ some v
last_value-append [] v = refl
last_value-append (w ∷ []) v = refl
last_value-append (w ∷ x ∷ vs) v = last_value-append (x ∷ vs) v

-- Adding a coding with no other goroutines.
pub add_alone-values :
    (key other value : Bytes) (h : Header)
    → (appended h.processor
            (get_key h.processor key)
            value
            (lookup (get_key h.processor key) h.values)
          ≡ values_of key h ++ value ∷ []
        → values_of key (add (λ m. m) key value h) ≡ values_of key h ++ value ∷ [])
      × (equal (get_key h.processor other) (get_key h.processor key) ≡ false
          → values_of other (add (λ m. m) key value h) ≡ values_of other h)
unfolding get_values get_key_safe
add_alone-values key other value h =
    let raw = get_key h.processor key in
    let same = locked_alone raw h.values in
    let law = get_values-add (λ m. m) key other value h in
    (
      λ e. law.0 ∙ ap (λ m. appended h.processor raw value (lookup raw m)) same ∙ e,
      λ o. law.1 o ∙ ap (λ m. get_values_raw_key m (get_key h.processor other)) same,
    )

-- What `SetSize(-1)` leaves.
remove_content_length-values :
    (h : Header)
    → KeepsKeys h
    → h.processor.values_processors ≡ []
    → (values_of content_length (remove_content_length h) ≡ [])
      × (values_of content_range (remove_content_length h) ≡ values_of content_range h)
      × (ends_chunked (values_of transfer_encoding (remove_content_length h)) ≡ true)
unfolding remove_content_length del get_key_safe get_values
remove_content_length-values h k plain =
    let h' = del_alone content_length h in
    let d = del_alone-values content_length content_range h in
    elim (Bool-cases (ends_chunked (values_of transfer_encoding h'))) [
      | inl e ↦ rw (remove_content_length, e) (d.0, d.1 k.range_length, e)
      | inr e ↦
          let a = add_alone-values transfer_encoding content_range (codes "chunked") h' in
          let b = add_alone-values transfer_encoding content_length (codes "chunked") h' in
          rw (remove_content_length, e)
            (
              b.1 k.length_encoding ∙ d.0,
              a.1 k.range_encoding ∙ d.1 k.range_length,
              rw
                  (
                    a.0 (
                        appended_plain h.processor (get_key h.processor transfer_encoding)
                          (codes "chunked") h'.values plain),
                    ends_chunked,
                    last_value-append (values_of transfer_encoding h') (codes "chunked"),
                  )
                  refl,
            )
    ]

-- Where the header has no Content-Range, `SetSize` has no error, and `Size` reads what was set: a
-- number of bytes of an int64, or -1, for which the body is left to the chunked coding, the last of
-- the transfer codings. The header has no processors of values, and keeps the fields apart.
pub size-set_size :
    (n : ℕ) (h : Header)
    → KeepsKeys h
    → h.processor.values_processors ≡ []
    → values_of content_range h ≡ []
    → n < 2 ^ 63
    → ((g : Header) × (set_size (pos n) h ≡ some (g, none)) × (size g ≡ some (pos n, none)))
      × ((g : Header) × (set_size (negsuc 0) h ≡ some (g, none))
          × (size g ≡ some (negsuc 0, none))
          × (ends_chunked (values_of transfer_encoding g) ≡ true))
size-set_size n h k plain none_there i =
    let (written, kept) = set_content_length-values (pos n) h k in
    let (gone, kept', chunked) = remove_content_length-values h k plain in
    let g = set_content_length (pos n) h in
    let g' = remove_content_length h in
    (
      (
        g,
        set_size-plain (pos n) h none_there,
        size-plain g (kept ∙ none_there)
            ∙ ap (λ l. some (size_of_lengths l)) written
            ∙ ap (λ q. some q) (size_of_lengths-written n i),
      ),
      (
        g',
        set_size-plain (negsuc 0) h none_there,
        size-plain g' (kept' ∙ none_there) ∙ ap (λ l. some (size_of_lengths l)) gone,
        chunked,
      ),
    )
