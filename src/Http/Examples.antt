-- ===== src/Http/Examples.antt =====
-- Runs of the parser and of the writer, and the theorems at concrete inputs.
use xous_app_signal.Prelude.{
  nat_beq, if◌then◌else◌, ℕ, ◌+◌, ◌≡◌, refl, true, none, some, Text, codes, List, [], ◌∷◌, ◌++◌,
  map, take, drop, ok, err,
}
use xous_app_signal.Labels.{decimal}
use xous_app_signal.Http.{
  find_header_end, split_crlf, parse_u16, HttpTypes, HttpRequest, parse_http_response,
  request_bytes, decode,
}
use xous_app_signal.Http.Framing.{lacks, is_line, all_lines, block, header_end}
use xous_app_signal.Http.Responses.{status_line, field_line, store_fields, parse_http_response_lem}
use xous_app_signal.Http.Requests.{as_ascii, request_line, more_lines, request_bytes_lem}

-- Headers as the list of what was inserted, the latest first.
abbrev plain_types : HttpTypes ℕ Text Text (List (Text × Text))
plain_types = record {
  from_u16 = λ n. ok n;
  header_name = λ t. some t;
  header_value = λ t. some t;
  no_headers = [];
  insert = λ h n v. (n, v) ∷ h;
}

abbrev skip_space : Text → Text
skip_space [] = []
skip_space (c ∷ t) = if nat_beq c b' ' then t else c ∷ t

abbrev two_fields : List (Text × Text)
two_fields = (codes "content-type", codes "text/plain") ∷ (codes "x-time", codes "7") ∷ []

parse_http_response-example :
    parse_http_response skip_space plain_types (λ t. true) (codes "HTTP/1.1" ++ header_end)
    ≡ err (decode (codes "missing status code"))
unfolding parse_http_response
parse_http_response-example = refl

parse_http_response_lem_example :
    parse_http_response skip_space plain_types
      (λ t. true)
      (block
          (status_line (codes "HTTP/1.1") (codes "204") (codes "No Content"))
          (map field_line two_fields)
        ++ (header_end ++ (header_end ++ codes "body")))
    ≡ ok (record {
      status = 204;
      headers = store_fields plain_types [] two_fields;
      body = header_end ++ codes "body";
    })
unfolding lacks parse_u16 all_lines is_line block
parse_http_response_lem_example =
    parse_http_response_lem skip_space plain_types (λ t. true) (codes "HTTP/1.1") (codes "204")
      (codes "No Content") two_fields (header_end ++ codes "body") 204 204 refl refl refl refl
      ((refl, refl, refl), ((refl, refl, refl), tt)) refl refl

abbrev small_request : HttpRequest
small_request = record {
  method = codes "PUT";
  host_str = some (codes "h");
  port_or_known_default = none;
  path = codes "/v1";
  query = some (codes "a=1");
  auth = some (codes "u", codes "p");
  headers = map as_ascii two_fields;
  body = some header_end;
}

request_bytes_lem_example :
    (raw : Text) × (n : ℕ) × (request_bytes (λ t. t) small_request (codes "h") (codes "xas")
      ≡ ok raw)
    × (find_header_end raw ≡ some n)
    × (split_crlf (take n raw)
        ≡ request_line small_request
          ∷ more_lines (λ t. t) small_request (codes "h") (codes "xas") two_fields)
    × (drop (n + 4) raw ≡ header_end)
unfolding all_lines is_line lacks decimal
request_bytes_lem_example =
    request_bytes_lem (λ t. t) small_request (codes "h") (codes "xas") two_fields refl refl
