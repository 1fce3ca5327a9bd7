-- ===== src/Http/Requests.antt =====
-- What a server reads of a request that crates/xous-net-bridge/src/http.rs writes.
use xous_app_signal.Prelude.{
  ℕ, ◌+◌, ◌≡◌, refl, sym, ap, ◌∙◌, true, Option, none, some, Text, codes, List, [], ◌∷◌, ◌++◌,
  append-nil, append_assoc, map, length, take, take-append, drop, ok,
}
use xous_app_signal.Labels.{decimal}
use xous_app_signal.Http.{
  crlf, find_header_end, split_crlf, HttpRequest, authorization, write_headers, body_of, target,
  request_bytes,
}
use xous_app_signal.Http.Framing.{
  all_lines, block, header_end, split_crlf-block, find_header_end-block, behind,
}
use xous_app_signal.Http.Responses.{field_line}

-- Lines, each with its line end.
unfoldable pub ended : List Text → Text
ended [] = []
ended (l ∷ ls) = l ++ (crlf ++ ended ls)

abbrev pub as_ascii : Text × Text → Text × Option Text
as_ascii (name, value) = (name, some value)

block-ended : (l : Text) (ls : List Text) → block l ls ++ crlf ≡ ended (l ∷ ls)
unfolding block ended
block-ended l [] = refl
block-ended l (m ∷ ls) =
    append_assoc l (crlf ++ block m ls) crlf ∙ ap (λ t. l ++ (crlf ++ t)) (block-ended m ls)

-- Lines, each with its line end, in front of a text.
unfoldable pub joined : List Text → Text → Text
joined [] t = t
joined (l ∷ ls) t = l ++ (crlf ++ joined ls t)

ended-joined : (ls : List Text) (t : Text) → ended ls ++ t ≡ joined ls t
unfolding ended joined
ended-joined [] t = refl
ended-joined (l ∷ ls) t =
    append_assoc l (crlf ++ ended ls) t ∙ ap (λ u. l ++ (crlf ++ u)) (ended-joined ls t)

joined-append : (xs ys : List Text) (t : Text) → joined (xs ++ ys) t ≡ joined xs (joined ys t)
unfolding joined
joined-append [] ys t = refl
joined-append (x ∷ xs) ys t = ap (λ u. x ++ (crlf ++ u)) (joined-append xs ys t)

-- The lines of a request, put together in the order of the writes.
joined-writes :
    (first more fields last : List Text) (t : Text)
    → joined first (ended more ++ (ended fields ++ joined last t))
      ≡ ended (first ++ (more ++ (fields ++ last))) ++ t
joined-writes first more fields last t =
    ap (joined first) (
      ended-joined more (ended fields ++ joined last t)
      ∙ ap (joined more) (ended-joined fields (joined last t) ∙ sym (joined-append fields last t))
      ∙ sym (joined-append more (fields ++ last) t))
    ∙ sym (joined-append first (more ++ (fields ++ last)) t)
    ∙ sym (ended-joined (first ++ (more ++ (fields ++ last))) t)

write_headers-fields :
    (fields : List (Text × Text))
    → write_headers (map as_ascii fields) ≡ ok (ended (map field_line fields))
unfolding write_headers ended
write_headers-fields [] = refl
write_headers-fields ((name, value) ∷ fields) = rw (write_headers-fields fields) refl

abbrev pub request_line : HttpRequest → Text
request_line req = req.method ++ (b' ' ∷ target req) ++ codes " HTTP/1.1"

abbrev pub host_lines : Text → Text → List Text
host_lines host user_agent =
    (codes "Host: " ++ host)
    ∷ (codes "User-Agent: " ++ user_agent)
    ∷ codes "Connection: close"
    ∷ codes "Accept: */*"
    ∷ []

abbrev pub first_lines : HttpRequest → Text → Text → List Text
first_lines req host user_agent = request_line req ∷ host_lines host user_agent

abbrev pub last_line : HttpRequest → Text
last_line req = codes "Content-Length: " ++ decimal (length (body_of req.body))

module _ (base64 : Text → Text) where
  abbrev pub authorization_lines : Option (Text × Text) → List Text
  authorization_lines none = []
  authorization_lines (some (username, password)) =
      (codes "Authorization: Basic " ++ base64 (username ++ (b':' ∷ password))) ∷ []

  -- The lines behind the request line.
  abbrev pub more_lines : HttpRequest → Text → Text → List (Text × Text) → List Text
  more_lines req host user_agent fields =
      host_lines host user_agent
      ++ (authorization_lines req.auth ++ (map field_line fields ++ (last_line req ∷ [])))

  authorization-ended :
      (auth : Option (Text × Text)) → authorization base64 auth ≡ ended (authorization_lines auth)
  unfolding authorization ended
  authorization-ended none = refl
  authorization-ended (some (username, password)) =
      ap (λ t. codes "Authorization: Basic " ++ t)
        (ap (λ t. base64 (username ++ (b':' ∷ password)) ++ t) (sym (append-nil crlf)))

  request_bytes-ended :
      (req : HttpRequest) (host user_agent : Text) (fields : List (Text × Text))
      → req.headers ≡ map as_ascii fields
      → request_bytes base64 req host user_agent
        ≡ ok (
            ended (request_line req ∷ more_lines req host user_agent fields)
            ++ (crlf ++ body_of req.body))
  unfolding request_bytes joined
  request_bytes-ended req host user_agent fields h =
      rw (request_bytes, ap write_headers h ∙ write_headers-fields fields)
        (rw (authorization-ended req.auth) (
          ap ok (
            joined-writes (first_lines req host user_agent) (authorization_lines req.auth)
              (map field_line fields) (last_line req ∷ []) (crlf ++ body_of req.body))))

  request_bytes-block :
      (req : HttpRequest) (host user_agent : Text) (fields : List (Text × Text))
      → req.headers ≡ map as_ascii fields
      → request_bytes base64 req host user_agent
        ≡ ok (
            block (request_line req) (more_lines req host user_agent fields)
            ++ (header_end ++ body_of req.body))
  unfolding request_bytes
  request_bytes-block req host user_agent fields h =
      request_bytes-ended req host user_agent fields h
      ∙ ap (λ t. ok (t ++ (crlf ++ body_of req.body)))
          (sym (block-ended (request_line req) (more_lines req host user_agent fields)))
      ∙ ap ok (
          append_assoc (block (request_line req) (more_lines req host user_agent fields)) crlf
            (crlf ++ body_of req.body))

  -- A request whose lines are not empty and have no carriage return is written, and reads back as
  -- it is meant: a server that looks for the first blank line finds before it exactly the request
  -- line, the fixed fields, the authorization, the caller's fields and the length of the body, in
  -- this order, and behind it exactly the body, whatever bytes it has.
  pub request_bytes_lem :
      (req : HttpRequest) (host user_agent : Text) (fields : List (Text × Text))
      → req.headers ≡ map as_ascii fields
      → all_lines (request_line req ∷ more_lines req host user_agent fields) ≡ true
      → (raw : Text) × (n : ℕ) × (request_bytes base64 req host user_agent ≡ ok raw)
        × (find_header_end raw ≡ some n)
        × (split_crlf (take n raw) ≡ request_line req ∷ more_lines req host user_agent fields)
        × (drop (n + 4) raw ≡ body_of req.body)
  request_bytes_lem req host user_agent fields h lines =
      let more = more_lines req host user_agent fields in
      let head = block (request_line req) more in
      let rest = header_end ++ body_of req.body in
      (
        head ++ rest,
        length head,
        request_bytes-block req host user_agent fields h,
        find_header_end-block (request_line req) more (body_of req.body) lines,
        ap split_crlf (take-append head rest) ∙ split_crlf-block (request_line req) more lines,
        behind head (body_of req.body),
      )
