-- ===== src/Http/Body/Choice/Lengths.antt =====
-- The length that the writer of a body is given, and the body that a reader then finds.
use mathlib.Core.Path.{subst}
use jotpot_server.Base.{
  ℕ, ◌^◌, ◌<◌, ◌≡◌, refl, sym, ap, arith, ◌∙◌, ◌⊎◌, true, false, none, some, List, [], ◌∷◌, ◌++◌,
  Bytes, All, equal, codes, inl, inr, Bool-cases, if◌then◌else◌,
}
use jotpot_server.Base.Int.{pos, negsuc}
use jotpot_server.Base.Decimal.{format_uint, format_int, parse-format_uint}
use jotpot_server.Http.Header.{Header, get_key, set_value, del, get_key_safe, get_values}
use jotpot_server.Http.Header.Values.{IsLower, appended_lower}
use jotpot_server.Http.Message.{set_alone, del_alone}
use jotpot_server.Http.Metadata.{
  values_of, content_length, transfer_encoding, ends_chunked, without_last, set_content_length,
}
use jotpot_server.Http.Metadata.Fields.{
  KeepsKeys, KeepsKeys-set_values, set_content_length-values, values_set, values_set_other,
}
use jotpot_server.Http.Metadata.Sizes.{del_alone-values, add_alone-values}
use jotpot_server.Http.Encodings.{Encoding}
use jotpot_server.Jps.Pipe.{Generator}
use jotpot_server.Http.Body.Choice.{
  BodyReader, limited, raw, err_content_length_and_transfer_encoding, returns, body_of, get_body,
  lengths_length, body_length, set_length, set_no_length, set_body_length,
}

set_length-content_length :
    (n : ℕ) (h : Header)
    → KeepsKeys h
    → values_of content_length (set_length n h) ≡ format_uint n ∷ []
unfolding set_length set_content_length format_int
set_length-content_length n h k = (set_content_length-values (pos n) h k).0

equal_sym : (a b : Bytes) → equal a b ≡ equal b a
equal_sym [] [] = refl
equal_sym [] (y ∷ b) = refl
equal_sym (x ∷ a) [] = refl
equal_sym (x ∷ a) (y ∷ b) = ground (arith, equal_sym a b)

-- The transfer codings that are left.
abbrev remaining : List Bytes → List Bytes
remaining cs = if ends_chunked cs then without_last cs else cs

set_length-transfer_encoding :
    (n : ℕ) (h : Header)
    → KeepsKeys h
    → All IsLower (remaining (values_of transfer_encoding h))
    → values_of transfer_encoding (set_length n h) ≡ remaining (values_of transfer_encoding h)
unfolding set_length set_value
set_length-transfer_encoding n h k l =
    let o =
      equal_sym (get_key h.processor transfer_encoding) (get_key h.processor content_length)
      ∙ k.length_encoding in
    let h' = set_alone content_length (format_uint n) h in
    let k' = KeepsKeys-set_values h content_length (format_uint n ∷ []) k in
    let same : values_of transfer_encoding h' ≡ values_of transfer_encoding h =
      values_set_other h content_length transfer_encoding (format_uint n ∷ []) o in
    elim (Bool-cases (ends_chunked (values_of transfer_encoding h'))) [
      | inl e ↦
          let e' : ends_chunked (values_of transfer_encoding h) ≡ true =
            ap ends_chunked (sym same) ∙ e in
          let lower : All IsLower (without_last (values_of transfer_encoding h')) =
            subst (λ cs. All IsLower (without_last cs)) (sym same)
              (subst
                (λ b. All IsLower (
                  if b
                  then without_last (values_of transfer_encoding h)
                  else values_of transfer_encoding h))
                e' l) in
          rw (set_length, e)
            (values_set h' transfer_encoding (without_last (values_of transfer_encoding h'))
                (k'.keeps_lower _ _ _ _ lower)
              ∙ ap without_last same
              ∙ rw e' refl)
      | inr e ↦
          let e' : ends_chunked (values_of transfer_encoding h) ≡ false =
            ap ends_chunked (sym same) ∙ e in
          rw (set_length, e) (same ∙ rw e' refl)
    ]

-- The body is not coded, but for the chunks that a length makes needless.
abbrev pub IsUncoded : List Bytes → Type 0
IsUncoded cs = (cs ≡ []) ⊎ (cs ≡ codes "chunked" ∷ [])

remaining-IsUncoded : (cs : List Bytes) → IsUncoded cs → remaining cs ≡ []
remaining-IsUncoded cs (inl e) = rw e refl
remaining-IsUncoded cs (inr e) = rw e refl

lengths_length-written :
    {E : Type 0} (n : ℕ) → n < 2 ^ 63 → lengths_length {E = E} (format_uint n ∷ []) ≡ (pos n, none)
unfolding lengths_length
lengths_length-written n i = rw (parse-format_uint 63 n i, lengths_length) refl

last_value-chunked :
    (c : Bytes) (cs : List Bytes) → ends_chunked (c ∷ cs ++ codes "chunked" ∷ []) ≡ true
last_value-chunked c [] = refl
last_value-chunked c (d ∷ cs) = last_value-chunked d cs

without_last-chunked :
    (c : Bytes) (cs : List Bytes) → without_last (c ∷ cs ++ codes "chunked" ∷ []) ≡ c ∷ cs
without_last-chunked c [] = refl
without_last-chunked c (d ∷ cs) = ap (◌∷◌ c) (without_last-chunked d cs)

remaining-chunked :
    (c : Bytes) (cs : List Bytes) → remaining (c ∷ cs ++ codes "chunked" ∷ []) ≡ c ∷ cs
remaining-chunked c cs = rw (last_value-chunked c cs) (without_last-chunked c cs)

-- The field to which the code adds the coding.
abbrev pub transfer_encodings : Bytes
transfer_encodings = codes "Transfer-Encodings"

set_no_length-values :
    (h : Header)
    → KeepsKeys h
    → equal (get_key h.processor transfer_encoding) (get_key h.processor transfer_encodings) ≡ false
    → equal (get_key h.processor content_length) (get_key h.processor transfer_encodings) ≡ false
    → All IsLower (values_of transfer_encodings h)
    → values_of transfer_encoding h ≡ []
    → (values_of transfer_encoding (set_no_length h) ≡ [])
      × (values_of content_length (set_no_length h) ≡ [])
      × (values_of transfer_encodings (set_no_length h)
          ≡ values_of transfer_encodings h ++ codes "chunked" ∷ [])
unfolding set_no_length del get_key_safe get_values
set_no_length-values h k o p l e =
    let h' = del_alone content_length h in
    let q =
      equal_sym (get_key h.processor transfer_encoding) (get_key h.processor content_length)
      ∙ k.length_encoding in
    let d = del_alone-values content_length transfer_encoding h in
    let none_left : values_of transfer_encoding h' ≡ [] = d.1 q ∙ e in
    let a = add_alone-values transfer_encodings transfer_encoding (codes "chunked") h' in
    let b = add_alone-values transfer_encodings content_length (codes "chunked") h' in
    let same : values_of transfer_encodings h' ≡ values_of transfer_encodings h =
      (del_alone-values content_length transfer_encodings h).1 (
        equal_sym (get_key h.processor transfer_encodings) (get_key h.processor content_length)
        ∙ p) in
    let appended =
      appended_lower h.processor (get_key h.processor transfer_encodings) (codes "chunked")
        h'.values k.keeps_lower (subst (All IsLower) (sym same) l)
        (refl, (refl, (refl, (refl, (refl, (refl, (refl, tt))))))) in
    let more : ends_chunked (values_of transfer_encoding h') ≡ false = ap ends_chunked none_left in
    rw (set_no_length, more)
      (a.1 o ∙ none_left, b.1 p ∙ d.0, a.0 appended ∙ ap (λ vs. vs ++ codes "chunked" ∷ []) same)

module _ {W B E V : Type 0} (to_lower : Bytes → Bytes)
    (encodings : List (Encoding (Generator W B E) V)) (raw_reader : B) where
  body_of-written :
      (n : ℕ) (r : BodyReader B) (w : W)
      → n < 2 ^ 63
      → body_of to_lower encodings raw_reader [] (format_uint n ∷ []) r w
        ≡ returns (record { length = pos n; reader = some (limited n) }, w) none
  unfolding body_of
  body_of-written n r w i = rw (parse-format_uint 63 n i, body_of) refl

  get_body-values :
      (h : Header) (cs ls : List Bytes) (r : BodyReader B) (w : W)
      → values_of transfer_encoding h ≡ cs
      → values_of content_length h ≡ ls
      → get_body to_lower encodings raw_reader true false h r w
        ≡ body_of to_lower encodings raw_reader cs ls r w
  unfolding get_body
  get_body-values h cs ls r w e d = rw (e, d) refl

  -- Where the header's transfer codings are none or "chunked" alone, setting the length of a body to an
  -- int64 that is not negative gives a header of which the writer has this length, and from which the
  -- reader of a message that is no HEAD and has a body takes exactly so many bytes. The header's
  -- processors leave values without upper case letters alone and keep the fields apart.
  pub get_body-set_body_length :
      (n : ℕ) (h : Header) (r : BodyReader B) (w : W)
      → KeepsKeys h
      → n < 2 ^ 63
      → IsUncoded (values_of transfer_encoding h)
      → (g : Header) × (set_body_length (pos n) h ≡ some g)
        × (body_length {E = E} false g ≡ (pos n, none))
        × (get_body to_lower encodings raw_reader true false g r w
            ≡ returns (record { length = pos n; reader = some (limited n) }, w) none)
  unfolding set_body_length body_length
  get_body-set_body_length n h r w k i u =
      let size = set_length-content_length n h k in
      let coded =
        set_length-transfer_encoding n h k
          (subst (All IsLower) (sym (remaining-IsUncoded (values_of transfer_encoding h) u)) tt)
        ∙ remaining-IsUncoded (values_of transfer_encoding h) u in
      (
        set_length n h,
        refl,
        ap lengths_length size ∙ lengths_length-written n i,
        get_body-values (set_length n h) [] (format_uint n ∷ []) r w coded size
            ∙ body_of-written n r w i,
      )

  -- Where other transfer codings stand before a last one "chunked", setting the length to a number takes
  -- only "chunked" away, and the header that is left is one that the reader of a message that is no
  -- HEAD and has a body refuses, since it has a length and a coding. The header's processors leave
  -- values without upper case letters alone, as the codings are, and keep the fields apart.
  pub get_body-set_body_length_coded :
      (n : ℕ) (h : Header) (c : Bytes) (cs : List Bytes) (r : BodyReader B) (w : W)
      → KeepsKeys h
      → All IsLower (c ∷ cs)
      → values_of transfer_encoding h ≡ c ∷ cs ++ codes "chunked" ∷ []
      → (g : Header) × (set_body_length (pos n) h ≡ some g)
        × (values_of transfer_encoding g ≡ c ∷ cs)
        × (get_body to_lower encodings raw_reader true false g r w
            ≡ returns (r, w) (some err_content_length_and_transfer_encoding))
  unfolding set_body_length body_of
  get_body-set_body_length_coded n h c cs r w k l e =
      let size = set_length-content_length n h k in
      let left = ap remaining e ∙ remaining-chunked c cs in
      let coded = set_length-transfer_encoding n h k (subst (All IsLower) (sym left) l) ∙ left in
      (
        set_length n h,
        refl,
        coded,
        get_body-values (set_length n h) (c ∷ cs) (format_uint n ∷ []) r w coded size,
      )

  -- Where the header has no transfer coding, setting the length to -1 leaves it without one: "chunked"
  -- is added behind the values of the field "Transfer-Encodings", and the reader of a message that is
  -- no HEAD and has a body takes all bytes up to the end of the connection. The header's processors
  -- leave values without upper case letters alone, as those of that field are, and keep the fields
  -- apart.
  pub get_body-set_no_length :
      (h : Header) (r : BodyReader B) (w : W)
      → KeepsKeys h
      → equal (get_key h.processor transfer_encoding) (get_key h.processor transfer_encodings)
        ≡ false
      → equal (get_key h.processor content_length) (get_key h.processor transfer_encodings) ≡ false
      → All IsLower (values_of transfer_encodings h)
      → values_of transfer_encoding h ≡ []
      → (g : Header) × (set_body_length (negsuc 0) h ≡ some g)
        × (values_of transfer_encoding g ≡ [])
        × (values_of transfer_encodings g ≡ values_of transfer_encodings h ++ codes "chunked" ∷ [])
        × (get_body to_lower encodings raw_reader true false g r w
            ≡ returns (record { length = negsuc 0; reader = some raw }, w) none)
  unfolding set_body_length body_of
  get_body-set_no_length h r w k o p l e =
      let (coded, size, added) = set_no_length-values h k o p l e in
      (set_no_length h, refl, coded, added, get_body-values (set_no_length h) [] [] r w coded size)
