-- ===== src/Examples/Requests.antt =====
-- The theorem about the heads of requests at a concrete request.
use jotpot_server.Base.{
  ℕ, ◌≡◌, refl, not, true, false, none, some, [], ◌∷◌, ◌++◌, inl, Bytes, codes, equal,
  if◌then◌else◌,
}
use jotpot_server.Http.Header.{
  Processor, new_header, get_values, get_key, get_key_safe, get_values_raw_key, add, add_raw_key,
  appended, process_values,
}
use jotpot_server.Http.Version.{version, parse_http_version, parse_version, known_version}
use jotpot_server.Http.Heads.{eof}
use jotpot_server.Http.Heads.Lines.{reader}
use jotpot_server.Http.Heads.RoundTrip.{field_lines}
use jotpot_server.Http.Requests.{
  Urls, request, keep_alive, space, parse_uri, parse_request, chunked_twice,
}
use jotpot_server.Http.Requests.WellFormed.{header_of, parse_request-head}
use jotpot_server.Examples.Heads.{host, agent, host-IsField, agent-IsField}

-- A URL is its host and its text.
abbrev urls : Urls (Bytes × Bytes) ℕ
urls = record {
  parse_request_uri = λ s. inl ([], s);
  host = λ u. u.0;
  set_host = λ h u. (h, u.1);
  set_scheme = λ s u. u;
}

abbrev plain : Processor
plain = record { key_transforms = []; values_processors = [] }

abbrev method : Bytes
method = codes "GET"

abbrev path : Bytes
path = codes "/a?b"

abbrev text : Bytes
text = codes "HTTP/1.1"

version-read : parse_http_version text ≡ (version 1 1, none)
unfolding parse_http_version parse_version known_version
version-read = refl

path-read : parse_uri urls method path ≡ some (inl ([], path))
unfolding parse_uri
path-read = refl

one_host :
    (get_values (header_of plain (host ∷ agent ∷ [])) (codes "Host")).1 ≡ codes "example.org" ∷ []
unfolding get_values get_key_safe get_values_raw_key add add_raw_key appended process_values get_key
    new_header
one_host = refl

parse_request-head_example :
    parse_request urls plain (
      reader
        (method
          ++ (space
              ∷ (path
                  ++ (space
                      ∷ (text ++ (13 ∷ 10 ∷ (field_lines (host ∷ agent ∷ []) ++ codes "body")))))))
        eof)
    ≡ (let h = (get_values (header_of plain (host ∷ agent ∷ [])) (codes "Host")).0 in
        request
          (record {
            method_str = method;
            url =
                if equal (urls.host ([], path)) []
                then urls.set_host (codes "example.org") ([], path)
                else ([], path);
            version = version 1 1;
            header = (keep_alive (version 1 1) h).0;
          })
          (not (keep_alive (version 1 1) h).1)
          (reader (codes "body") eof))
parse_request-head_example =
    parse_request-head urls plain method path text (version 1 1) ([], path) (host ∷ agent ∷ [])
      (codes "example.org") (codes "body") eof (refl, (refl, (refl, tt))) (refl, (refl, (refl, tt)))
      (refl, (refl, (refl, (refl, tt)))) (refl, (refl, (refl, (refl, tt))))
      (refl, (refl, (refl, (refl, (refl, (refl, (refl, (refl, tt)))))))) version-read path-read
      (host-IsField, (agent-IsField, tt)) one_host

twice_chunked : chunked_twice false (codes "chunked" ∷ codes "gzip" ∷ codes "chunked" ∷ []) ≡ true
unfolding chunked_twice
twice_chunked = refl
