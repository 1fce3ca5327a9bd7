-- ===== src/Http/Responses.antt =====
-- What the parser of crates/xous-net-bridge/src/http.rs reads of a response.
use xous_app_signal.Prelude.{
  ℕ, ◌≡◌, refl, ap, ◌∙◌, Bool, true, some, Text, List, [], ◌∷◌, ◌++◌, map, take-append, All, ok,
  arith,
}
use xous_app_signal.Http.{
  split_crlf, split_once, splitn, parse_u16, HttpTypes, insert_both, header_line, header_lines,
  parse_lines, after_header_end, parse_http_response,
}
use xous_app_signal.Http.Framing.{
  behind, lacks, all_lines, block, header_end, split_crlf-block, find_header_end-block,
}

abbrev pub status_line : Text → Text → Text → Text
status_line version code reason = version ++ (b' ' ∷ (code ++ (b' ' ∷ reason)))

abbrev pub field_line : Text × Text → Text
field_line (name, value) = name ++ (b':' ∷ b' ' ∷ value)

split_once-lacks :
    (sep : ℕ) (l t : Text) → lacks sep l ≡ true → split_once sep (l ++ (sep ∷ t)) ≡ some (l, t)
unfolding lacks split_once
split_once-lacks sep [] t h = ground arith
split_once-lacks sep (c ∷ l) t h = ground (arith, h, split_once-lacks sep l t)

splitn-status_line :
    (version code reason : Text)
    → lacks b' ' version ≡ true
    → lacks b' ' code ≡ true
    → splitn 3 b' ' (status_line version code reason) ≡ version ∷ code ∷ reason ∷ []
unfolding splitn
splitn-status_line version code reason hv hc =
    rw (splitn, split_once-lacks b' ' version (code ++ (b' ' ∷ reason)) hv)
      (rw (splitn, split_once-lacks b' ' code reason hc) refl)

module _ {S N V H : Type 0} (types : HttpTypes S N V H) where
  -- The map of the fields that the `http` crate accepts, the later over the earlier.
  abbrev pub store_fields : H → List (Text × Text) → H
  store_fields h [] = h
  store_fields h ((name, value) ∷ fields) =
      store_fields (insert_both types h (types.header_name name) (types.header_value value)) fields

module _ (trim : Text → Text) {S N V H : Type 0} (types : HttpTypes S N V H) where
  parse-block :
      (is_utf8 : Text → Bool) (l : Text) (ls : List Text) (body : Text)
      → all_lines (l ∷ ls) ≡ true
      → is_utf8 (block l ls) ≡ true
      → parse_http_response trim types is_utf8 (block l ls ++ (header_end ++ body))
        ≡ parse_lines trim types body (l ∷ ls)
  unfolding parse_http_response after_header_end
  parse-block is_utf8 l ls body h utf8 =
      rw (parse_http_response, find_header_end-block l ls body h)
        (rw (after_header_end, take-append (block l ls) (header_end ++ body))
          (rw (after_header_end, utf8)
            (ap (λ b. parse_lines trim types b (split_crlf (block l ls))) (behind (block l ls) body)
              ∙ ap (parse_lines trim types body) (split_crlf-block l ls h))))

  -- A field of the header as it is written: its name has no colon, and nothing is there to trim.
  abbrev pub IsField : Text × Text → Type 0
  IsField (name, value) =
      (lacks b':' name ≡ true) × (trim name ≡ name) × (trim (b' ' ∷ value) ≡ value)

  header_line-field :
      (h : H) (name value : Text)
      → IsField (name, value)
      → header_line trim types h (field_line (name, value))
        ≡ insert_both types h (types.header_name name) (types.header_value value)
  unfolding header_line
  header_line-field h name value (colon, name_trim, value_trim) =
      rw (header_line, split_once-lacks b':' name (b' ' ∷ value) colon)
        (rw (name_trim, value_trim) refl)

  header_lines-fields :
      (h : H) (fields : List (Text × Text))
      → All IsField fields
      → header_lines trim types h (map field_line fields) ≡ store_fields types h fields
  unfolding header_lines
  header_lines-fields h [] f = refl
  header_lines-fields h ((name, value) ∷ fields) (f, fs) =
      ap (λ g. header_lines trim types g (map field_line fields)) (header_line-field h name value f)
      ∙ header_lines-fields
          (insert_both types h (types.header_name name) (types.header_value value)) fields fs

  -- A response of a status line and of fields, each in its line, with a blank line and then any
  -- bytes, parses to its status, to the map of its fields and to exactly those bytes. The version
  -- and the code have no space, the lines no carriage return, and the header is UTF-8; the code is a
  -- number of 16 bits that the `http` crate takes for a status.
  pub parse_http_response_lem :
      (is_utf8 : Text → Bool) (version code reason : Text) (fields : List (Text × Text))
      (body : Text) (n : ℕ) (status : S)
      → lacks b' ' version ≡ true
      → lacks b' ' code ≡ true
      → parse_u16 code ≡ ok n
      → types.from_u16 n ≡ ok status
      → All IsField fields
      → all_lines (status_line version code reason ∷ map field_line fields) ≡ true
      → is_utf8 (block (status_line version code reason) (map field_line fields)) ≡ true
      → parse_http_response trim types is_utf8
          (block (status_line version code reason) (map field_line fields) ++ (header_end ++ body))
        ≡ ok (record {
          status = status;
          headers = store_fields types types.no_headers fields;
          body = body;
        })
  unfolding parse_lines
  parse_http_response_lem is_utf8 version code reason fields body n status hv hc hn hs hf lines
        utf8 =
      parse-block is_utf8 (status_line version code reason) (map field_line fields) body lines utf8
      ∙ rw (parse_lines, splitn-status_line version code reason hv hc)
          (rw (parse_lines, hn)
            (rw (parse_lines, hs)
              (rw (parse_lines, header_lines-fields types.no_headers fields hf) refl)))
