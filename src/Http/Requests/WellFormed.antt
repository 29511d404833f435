-- ===== src/Http/Requests/WellFormed.antt =====
-- Well-formed heads of requests, as they are parsed.
use jotpot_server.Base.{
  ℕ, ◌≡◌, refl, ap, ◌∙◌, inl, true, false, not, List, [], ◌∷◌, ◌++◌, ◌==◌, some, none,
  if◌then◌else◌, Bytes, All, append_assoc, equal, codes, All-append,
}
use jotpot_server.Http.Ranges.{cut}
use jotpot_server.Http.Header.{Header, Processor, new_header, unsafe_adder, add_unsafe, get_values}
use jotpot_server.Http.Header.Locks.{
  add_all, held, add_unsafe-held, add_all-key_mod_locked, release-held,
}
use jotpot_server.Http.Version.{Version, parse_http_version}
use jotpot_server.Http.Heads.{Reader, ReadError, read_bytes, returned, without_last}
use jotpot_server.Http.Heads.Scan.{crlf, NotNewline, until_newline-append, without_last-append}
use jotpot_server.Http.Heads.Fields.{HeaderField, IsField, field_value}
use jotpot_server.Http.Heads.Lines.{reader, whole}
use jotpot_server.Http.Heads.RoundTrip.{field_lines, add_fields, parse_headers-field_lines}
use jotpot_server.Http.Requests.{
  Urls, request, keep_alive, ends_with_return, space, parse_uri, with_hosts, with_header,
  read_header, read_rest, parse_line, parse_request,
}

abbrev pub NotSpace : ℕ → Type 0
NotSpace b = (b == space) ≡ false

cut-plain : (v rest : Bytes) → All NotSpace v → cut space (v ++ space ∷ rest) ≡ some (v, rest)
unfolding cut
cut-plain [] rest h = refl
cut-plain (b ∷ v) rest h = rw (cut-plain v rest h.1) (rw h.0 refl)

ends_with_return-crlf : (v : Bytes) → ends_with_return (v ++ 13 ∷ 10 ∷ []) ≡ true
unfolding ends_with_return
ends_with_return-crlf [] = refl
ends_with_return-crlf (a ∷ []) = refl
ends_with_return-crlf (a ∷ b ∷ []) = refl
ends_with_return-crlf (a ∷ b ∷ c ∷ v) = ends_with_return-crlf (b ∷ c ∷ v)

-- The fields that the parser adds.
abbrev pub pairs : List HeaderField → List (Bytes × Bytes)
pairs [] = []
pairs (f ∷ fs) = (f.key, field_value f) ∷ pairs fs

add_fields-held :
    (fs : List HeaderField) (h : Header)
    → add_fields add_unsafe fs (held h) ≡ held (add_all (pairs fs) h)
add_fields-held [] h = refl
add_fields-held (f ∷ fs) h =
    ap (add_fields add_unsafe fs) (add_unsafe-held f.key (field_value f) h) ∙ add_fields-held fs _

-- The header with the fields, which no one holds.
abbrev pub header_of : Processor → List HeaderField → Header
header_of p fs = add_all (pairs fs) (new_header p)

abbrev request_line : Bytes → Bytes → Bytes → Bytes
request_line method uri text = method ++ (space ∷ (uri ++ (space ∷ (text ++ crlf))))

ends_with_return-request_line :
    (method uri text : Bytes) → ends_with_return (request_line method uri text) ≡ true
ends_with_return-request_line method uri text =
    let split : request_line method uri text
        ≡ (method ++ (space ∷ (uri ++ (space ∷ text)))) ++ crlf =
      simp append_assoc in
    ap ends_with_return split ∙ ends_with_return-crlf (method ++ (space ∷ (uri ++ (space ∷ text))))

module _ {U E : Type 0} (urls : Urls U E) (p : Processor) where
  read_header-field_lines :
      (method : Bytes) (v : Version) (u : U) (fs : List HeaderField) (rest : Bytes) (e : ReadError)
      → All IsField fs
      → read_header urls p method v u (reader (field_lines fs ++ rest) e)
        ≡ with_header urls method v u none false (header_of p fs) (reader rest e)
  unfolding read_header unsafe_adder
  read_header-field_lines method v u fs rest e i =
      let parsed =
        parse_headers-field_lines add_unsafe fs rest e (held (new_header p)) i
        ∙ ap (λ h. returned h (reader rest e) none false) (add_fields-held fs (new_header p)) in
      let free : (header_of p fs).key_mod_locked ≡ false =
        add_all-key_mod_locked (pairs fs) (new_header p) ∙ (unfold new_header in refl) in
      rw (parsed, read_header) (rw (release-held (header_of p fs) free, read_header) refl)

  read_rest-text :
      (method uri text : Bytes) (v : Version) (u : U) (r : Reader)
      → parse_http_version text ≡ (v, none)
      → parse_uri urls method uri ≡ some (inl u)
      → read_rest urls p method uri (text ++ crlf) r ≡ read_header urls p method v u r
  unfolding read_rest
  read_rest-text method uri text v u r pv pu =
      let version : parse_http_version (without_last 2 (text ++ crlf)) ≡ (v, none) =
        ap parse_http_version (without_last-append text crlf) ∙ pv in
      rw (ap (λ x. x.1) version, read_rest)
        (rw (pu, read_rest) (ap (λ x. read_header urls p method x.0 u r) version))

  with_header-host :
      (method : Bytes) (v : Version) (u : U) (h : Header) (host : Bytes) (r : Reader)
      → (get_values h (codes "Host")).1 ≡ host ∷ []
      → with_header urls method v u none false h r ≡ (
          let h' = (get_values h (codes "Host")).0 in
          request
            (record {
              method_str = method;
              url = if equal (urls.host u) [] then urls.set_host host u else u;
              version = v;
              header = (keep_alive v h').0;
            })
            (not (keep_alive v h').1)
            r)
  unfolding with_header with_hosts
  with_header-host method v u h host r one = rw one refl

  request_line-read :
      (method uri text x : Bytes) (e : ReadError)
      → All NotNewline method
      → All NotNewline uri
      → All NotNewline text
      → read_bytes (reader (method ++ (space ∷ (uri ++ (space ∷ (text ++ (13 ∷ 10 ∷ x)))))) e)
        ≡ (whole (request_line method uri text), reader x e)
  unfolding read_bytes
  request_line-read method uri text x e mn un tn =
      let body = method ++ (space ∷ (uri ++ (space ∷ (text ++ 13 ∷ [])))) in
      let plain : All NotNewline body =
        All-append NotNewline method _ mn (
          refl,
          All-append NotNewline uri _ un (refl, All-append NotNewline text _ tn (refl, tt)),
        ) in
      let split : method ++ (space ∷ (uri ++ (space ∷ (text ++ (13 ∷ 10 ∷ x))))) ≡ body ++ 10 ∷ x =
        simp append_assoc in
      let line : body ++ 10 ∷ [] ≡ request_line method uri text = simp append_assoc in
      rw split (rw (until_newline-append body x plain) (rw line refl))

  parse_line-request_line :
      (method uri text : Bytes) (r : Reader)
      → All NotSpace method
      → All NotSpace uri
      → parse_line urls p (whole (request_line method uri text)) r
        ≡ read_rest urls p method uri (text ++ crlf) r
  unfolding parse_line
  parse_line-request_line method uri text r ms us =
      rw (ends_with_return-request_line method uri text) (
        rw (cut-plain method (uri ++ (space ∷ (text ++ crlf))) ms, parse_line)
          (rw (cut-plain uri (text ++ crlf) us, parse_line) refl))

  -- A request line of a method, a URI and a version, none of them with a newline and the first two
  -- without a space, and behind it the lines of well-formed fields and an empty line, is parsed if the
  -- version and the URI are, and the header has one Host: the request has the method, the version,
  -- the fields and the URL, whose host is that of the header if it has none of its own; the
  -- connection is closed behind it as `KeepAlive` has it; and the reader is left at the body.
  pub parse_request-head :
      (method uri text : Bytes) (v : Version) (u : U) (fs : List HeaderField) (host rest : Bytes)
      (e : ReadError)
      → All NotSpace method
      → All NotNewline method
      → All NotSpace uri
      → All NotNewline uri
      → All NotNewline text
      → parse_http_version text ≡ (v, none)
      → parse_uri urls method uri ≡ some (inl u)
      → All IsField fs
      → (get_values (header_of p fs) (codes "Host")).1 ≡ host ∷ []
      → parse_request urls p (
          reader
            (method ++ (space ∷ (uri ++ (space ∷ (text ++ (13 ∷ 10 ∷ (field_lines fs ++ rest)))))))
            e)
        ≡ (let h = (get_values (header_of p fs) (codes "Host")).0 in
            request
              (record {
                method_str = method;
                url = if equal (urls.host u) [] then urls.set_host host u else u;
                version = v;
                header = (keep_alive v h).0;
              })
              (not (keep_alive v h).1)
              (reader rest e))
  unfolding parse_request
  parse_request-head method uri text v u fs host rest e ms mn us un tn pv pu i one =
      ap (λ x. parse_line urls p x.0 x.1)
        (request_line-read method uri text (field_lines fs ++ rest) e mn un tn)
      ∙ parse_line-request_line method uri text (reader (field_lines fs ++ rest) e) ms us
      ∙ read_rest-text method uri text v u (reader (field_lines fs ++ rest) e) pv pu
      ∙ read_header-field_lines method v u fs rest e i
      ∙ with_header-host method v u (header_of p fs) host (reader rest e) one
