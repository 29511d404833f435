-- ===== src/Http/Requests.antt =====
-- The heads of requests and of responses: http/http1/requestParser.go and
-- http/http1/reponseFormatter.go. What the code uses of net/url is a parameter, and the text of a
-- status is one of net/http.
pub mod WellFormed
use jotpot_server.Base.{
  ℕ, zero, suc, ◌-◌, Bool, true, false, not, ◌&&◌, ◌||◌, Option, none, some, List, [], ◌∷◌, ◌++◌,
  ◌==◌, ltb, leb, if◌then◌else◌, Bytes, equal, codes, ◌⊎◌, inl, inr,
}
use jotpot_server.Base.Decimal.{format_uint}
use jotpot_server.Http.Ranges.{cut}
use jotpot_server.Http.Header.{
  Header, Processor, new_header, unsafe_adder, add_unsafe, release, get_values, get_values_raw_key,
  has,
}
use jotpot_server.Http.Version.{Version, VersionError, parse_http_version, format_version}
use jotpot_server.Http.Heads.{
  Reader, ReadError, Line, read_bytes, HeaderError, parse_headers, Parsed, returned, panicked,
  out_of_fuel, without_last, format_headers,
}

-- ParseRequestURI, which has no result beside its error, and the two fields that are used of a URL.
pub record Urls (U E : Type 0) : Type 0 where
  pub parse_request_uri : Bytes → U ⊎ E
  pub host : U → Bytes
  pub set_host : Bytes → U → U
  pub set_scheme : Bytes → U → U

pub record RequestHead (U : Type 0) : Type 0 where
  pub method_str : Bytes
  pub url : U
  pub version : Version
  pub header : Header

pub data RequestError (E : Type 0) : Type 0 where
  read_failed : ReadError → RequestError E
  err_expecting_carriage_return err_expecting_2_spaces : RequestError E
  bad_version : VersionError → RequestError E
  malformed_uri : E → RequestError E
  malformed_headers : HeaderError → RequestError E
  err_must_be_1_host_header : RequestError E

-- The request and whether to close the connection behind it; or the error, and whether one can
-- respond to it, where the connection is always to be closed.
pub data RequestResult (U E : Type 0) : Type 0 where
  request : RequestHead U → Bool → Reader → RequestResult U E
  rejected : RequestError E → Bool → Reader → RequestResult U E
  panic no_fuel : RequestResult U E

-- The second value is looked for only if the first is not there.
unfoldable pub keep_alive : Version → Header → Header × Bool
keep_alive v h =
    let (h₁, close) = has (codes "Connection") (codes "close" ∷ []) h in
    if ltb v.major 1
    then (h, false)
    else if close
    then (h₁, false)
    else if v.minor == 0 && v.major == 1
    then has (codes "Connection") (codes "keep-alive" ∷ []) h₁
    else (h₁, true)

-- The line has two bytes and CR before the last one.
unfoldable pub ends_with_return : Bytes → Bool
ends_with_return [] = false
ends_with_return (a ∷ []) = false
ends_with_return (a ∷ b ∷ []) = a == 13
ends_with_return (a ∷ b ∷ c ∷ v) = ends_with_return (b ∷ c ∷ v)

abbrev pub starts_with_slash : Bytes → Bool
starts_with_slash [] = false
starts_with_slash (b ∷ v) = b == b'/'

abbrev pub space : ℕ
space = b' '

module _ {U E : Type 0} (urls : Urls U E) where
  -- The URL, the error of the parser, or the panic: for a CONNECT request the scheme is set also
  -- where there is no URL.
  unfoldable pub parse_uri : Bytes → Bytes → Option (U ⊎ E)
  parse_uri method uri =
      if equal method (codes "CONNECT") && not (starts_with_slash uri)
      then (elim (urls.parse_request_uri (codes "http://" ++ uri)) [
        | inl u ↦ some (inl (urls.set_scheme [] u))
        | inr e ↦ none
      ])
      else some (urls.parse_request_uri uri)

  -- The Host fields of the header and the rest of the function.
  unfoldable pub with_hosts : RequestHead U → List Bytes → Reader → RequestResult U E
  with_hosts req (host ∷ []) r =
      let url = if equal (urls.host req.url) [] then urls.set_host host req.url else req.url in
      let (h, kept) = keep_alive req.version req.header in
      request (record req { url = url; header = h }) (not kept) r
  with_hosts req _ r =
      let (h, kept) = keep_alive req.version req.header in
      if (req.version.major == 1 && ltb 0 req.version.minor) || ltb 1 req.version.major
      then rejected err_must_be_1_host_header true r
      else request (record req { header = h }) (not kept) r

  -- The header is there when the adder is released, since it is held until then.
  unfoldable pub with_header :
      Bytes → Version → U → Option HeaderError → Bool → Header → Reader → RequestResult U E
  with_header method version url (some e) can_respond h r =
      rejected (malformed_headers e) can_respond r
  with_header method version url none can_respond h r =
      let (h', hosts) = get_values h (codes "Host") in
      with_hosts (record { method_str = method; url = url; version = version; header = h' }) hosts r

  unfoldable pub read_header : Processor → Bytes → Version → U → Reader → RequestResult U E
  read_header p method version url r = elim (unsafe_adder (new_header p)) [
    | none ↦ panic
    | some h ↦ elim (parse_headers add_unsafe r h) [
      | panicked ↦ panic
      | out_of_fuel ↦ no_fuel
      | returned h' r' err can_respond ↦ elim (release (some h')).1 [
        | inr _ ↦ panic
        | inl h'' ↦ with_header method version url err can_respond h'' r'
      ]
    ]
  ]

  -- The part of the first line from the URI on, which ends in two bytes.
  unfoldable pub read_rest : Processor → Bytes → Bytes → Bytes → Reader → RequestResult U E
  read_rest p method uri after r =
      let (v, err) = parse_http_version (without_last 2 after) in
      elim err [
        | some e ↦ rejected (bad_version e) true r
        | none ↦ elim (parse_uri method uri) [
          | none ↦ panic
          | some (inr e) ↦ rejected (malformed_uri e) true r
          | some (inl url) ↦ read_header p method v url r
        ]
      ]

  unfoldable pub parse_line : Processor → Line → Reader → RequestResult U E
  parse_line p line r = elim line.err [
    | some e ↦ rejected (read_failed e) false r
    | none ↦
        let parts : RequestResult U E = elim (cut space line.text) [
          | none ↦ rejected err_expecting_2_spaces true r
          | some (method, more) ↦ elim (cut space more) [
            | none ↦ rejected err_expecting_2_spaces true r
            | some (uri, after) ↦ read_rest p method uri after r
          ]
        ] in
        if ends_with_return line.text then parts else rejected err_expecting_carriage_return true r
  ]

  unfoldable pub parse_request : Processor → Reader → RequestResult U E
  parse_request p s = let (line, r) = read_bytes s in parse_line p line r

-- The loop of `ParsePipes`: whether "chunked" stands twice.
unfoldable pub chunked_twice : Bool → List Bytes → Bool
chunked_twice chunked [] = false
chunked_twice chunked (c ∷ cs) =
    let rest = chunked_twice (chunked || equal c (codes "chunked")) cs in
    if equal c (codes "chunked") then (if chunked then true else rest) else rest

pub data PipesError : Type 0 where
  err_cannot_chunk_an_already_chunked_body : PipesError

unfoldable pub parse_pipes : Header → Option PipesError
parse_pipes h =
    if chunked_twice false (get_values_raw_key h.values (codes "Transfer-Encoding"))
    then some err_cannot_chunk_an_already_chunked_body
    else none

pub record ResponseHead : Type 0 where
  pub version : Version
  pub status_code : ℕ
  pub status_text : Bytes
  pub header : Header

unfoldable pub format_response : (ℕ → Bytes) → ResponseHead → Bytes
format_response status_text resp =
    let text =
      if equal resp.status_text [] then status_text resp.status_code else resp.status_text in
    format_version resp.version
    ++ (space
        ∷ (format_uint resp.status_code
            ++ (space
                ∷ (text ++ (13 ∷ 10 ∷ (format_headers resp.header.values ++ (13 ∷ 10 ∷ [])))))))

-- `WriteResponse` writes all of it at once.
unfoldable pub write_response :
    {W E : Type 0} → (Bytes → W → W × ℕ × Option E) → (ℕ → Bytes) → ResponseHead → W → W × Option E
write_response write status_text resp w =
    let (w', n, err) = write (format_response status_text resp) w in (w', err)
