-- ===== src/Http/Cache/Held/Reread.antt =====
-- A request's cache control, written to its header and parsed again (http/request.go).
use jotpot_server.Base.{
  ◌≡◌, refl, ap₂, ◌∙◌, arith, true, false, Bool-cases, none, some, List, [], ◌∷◌, ◌++◌, Bytes,
  codes, equal, All, inl, inr,
}
use jotpot_server.Http.Header.{
  Header, get_key, get_key_safe, get_values, set_values, has, get_values_raw_key,
}
use jotpot_server.Http.Header.Values.{processed}
use jotpot_server.Http.Metadata.{values_of}
use jotpot_server.Http.Metadata.Fields.{values_set}
use jotpot_server.Http.Metadata.Sizes.{del_alone-values, add_alone-values}
use jotpot_server.Http.Cache.Directive.{blanks, parse_directives, parse_each}
use jotpot_server.Http.Cache.Request.{
  RequestCacheControl, PragmaNoCache, pragma_does_not_matter, pragma_no, pragma_yes,
  default_request_cache_control, request_headers, parse_request_headers, parse_request, see_all,
}
use jotpot_server.Http.Cache.Request.RoundTrip.{IsExtra, parse_request_headers-request_headers}
use jotpot_server.Http.Cache.Held.{
  Held, cache_control_key, pragma_key, parsed_request_values, parse_request_cache_control,
  request_cache_control, set_pragma, format_request_cache_control, discard_cache_control,
}

has-kept :
    (key : Bytes) (values : List Bytes) (h : Header)
    → ((has key values h).0.values ≡ h.values) × ((has key values h).0.processor ≡ h.processor)
unfolding has
has-kept key values h = ground arith

values_of-same :
    (key : Bytes) (g h : Header)
    → g.values ≡ h.values
    → g.processor ≡ h.processor
    → values_of key g ≡ values_of key h
unfolding get_values get_key_safe
values_of-same key g h e p = ap₂ (λ m q. get_values_raw_key m (get_key q key)) e p

set_pragma-values :
    (prag : PragmaNoCache) (h : Header)
    → equal (get_key h.processor cache_control_key) (get_key h.processor pragma_key) ≡ false
    → values_of cache_control_key (set_pragma prag h) ≡ values_of cache_control_key h
unfolding set_pragma
set_pragma-values pragma_does_not_matter h d = refl
set_pragma-values pragma_no h d = (del_alone-values pragma_key cache_control_key h).1 d
set_pragma-values pragma_yes h d =
    let found = has pragma_key (codes "no-cache" ∷ []) h in
    let (same, processor) = has-kept pragma_key (codes "no-cache" ∷ []) h in
    let apart : equal (get_key found.0.processor cache_control_key)
          (get_key found.0.processor pragma_key)
        ≡ false =
      rw processor d in
    let kept = values_of-same cache_control_key found.0 h same processor in
    elim (Bool-cases found.1) [
      | inl e ↦ rw e kept
      | inr e ↦ rw e (
          (add_alone-values pragma_key cache_control_key (codes "no-cache") found.0).1 apart ∙ kept)
    ]

-- Parsing no values gives what parsing an empty list would.
parsed_request_values-parse :
    (ss : List Bytes) → parsed_request_values ss ≡ parse_request_headers ss
unfolding parse_request_headers parse_directives parse_each parse_request see_all blanks
parsed_request_values-parse [] = refl
parsed_request_values-parse (s ∷ ss) = refl

-- A request's cache control that is written to the header, discarded and asked for again has its mode,
-- its permission to transform and its extra directives, behind a blank one for each directive
-- written; its ages are gone. The extra directives are of token characters, kept by ToLower and of
-- none of the parser's names. The header's processors leave the values that are written as they are,
-- which LowerCaseAll does if these have no upper case letters, and keep the two fields apart.
pub request_cache_control-format :
    (to_lower : Bytes → Bytes) (header : Header) (c : RequestCacheControl)
    → All (IsExtra to_lower) c.extras
    → processed header.processor cache_control_key (request_headers to_lower c).0
      ≡ (request_headers to_lower c).0
    → equal (get_key header.processor cache_control_key) (get_key header.processor pragma_key)
      ≡ false
    → let held : Held RequestCacheControl = record {
      header = header;
      has_cache_control = true;
      cache_control = c;
    } in
      let written = (format_request_cache_control to_lower held).0 in
      request_cache_control (discard_cache_control written)
      ≡ some (
        record {
          header = written.header;
          has_cache_control = true;
          cache_control = record default_request_cache_control {
            mode = c.mode;
            can_transform = c.can_transform;
            extras = blanks (request_headers to_lower c).0 ++ c.extras;
          };
        },
        none,
      )
unfolding request_cache_control discard_cache_control format_request_cache_control
    parse_request_cache_control set_values
request_cache_control-format to_lower header c x p d =
    let (ss, prag, err) = request_headers to_lower c in
    let g = set_values (λ m. m) cache_control_key ss header in
    let found : values_of cache_control_key (set_pragma prag g) ≡ ss =
      set_pragma-values prag g d ∙ values_set header cache_control_key ss p in
    rw (found, parsed_request_values-parse ss, parse_request_headers-request_headers to_lower c x)
      refl
