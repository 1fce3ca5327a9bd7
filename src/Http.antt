-- ===== src/Http.antt =====
-- The HTTP client of crates/xous-net-bridge/src/http.rs: one request and its response over a fresh
-- connection. The TLS connection, the `http` crate's statuses, names, values and header map, base64
-- and `trim` are parameters. A text is its bytes; the separators are ASCII. Logging is left out.
pub mod Framing
pub mod Responses
mod Examples
pub mod Requests
use xous_app_signal.Prelude.{
  ℕ, zero, suc, ◌+◌, ◌-◌, ◌*◌, ◌^◌, Bool, true, false, ◌&&◌, Option, none, some, Text, codes, List,
  String, [], ◌∷◌, ◌++◌, length, take, drop, leb, ltb, nat_beq, if◌then◌else◌, Result, ok, err,
  ◌>>=◌,
}
use xous_app_signal.Labels.{decimal}
use xous_app_signal.Sessions.{map_err}

-- `HttpError`
pub data HttpError : Type 0 where
  network encode decode invalid_url : Text → HttpError

abbrev pub crlf : Text
crlf = 13 ∷ 10 ∷ []

unfoldable pub starts_with : Text → Text → Bool
starts_with [] t = true
starts_with (p ∷ ps) [] = false
starts_with (p ∷ ps) (c ∷ t) = nat_beq p c && starts_with ps t

abbrev pub shift : ℕ → Option ℕ → Option ℕ
shift n none = none
shift n (some i) = some (n + i)

-- `raw.windows(4).position(|w| w == b"\r\n\r\n")`
unfoldable pub find_header_end : Text → Option ℕ
unfolding starts_with
find_header_end [] = none
find_header_end (c ∷ t) =
    let rest = find_header_end t in
    if starts_with (crlf ++ crlf) (c ∷ t) then some 0 else shift 1 rest

-- The first piece of a text that line ends split, and the others.
unfoldable pub pieces : Text → Text × List Text
unfolding starts_with
pieces [] = ([], [])
pieces (c ∷ t) =
    let (piece, others) = pieces t in
    if nat_beq c 13 && starts_with (10 ∷ []) t
    then ([], drop 1 piece ∷ others)
    else (c ∷ piece, others)

-- `split("\r\n")`
unfoldable pub split_crlf : Text → List Text
unfolding pieces
split_crlf t = let (piece, others) = pieces t in piece ∷ others

-- `split_once` at a character
unfoldable pub split_once : ℕ → Text → Option (Text × Text)
split_once sep [] = none
split_once sep (c ∷ t) =
    let rest = split_once sep t in
    if nat_beq c sep
    then some ([], t)
    else elim rest [ none ↦ none | some (before, behind) ↦ some (c ∷ before, behind) ]

-- `splitn`
unfoldable pub splitn : ℕ → ℕ → Text → List Text
unfolding split_once
splitn zero sep t = []
splitn (suc zero) sep t = t ∷ []
splitn (suc (suc n)) sep t = elim (split_once sep t) [
  | none ↦ t ∷ []
  | some (before, behind) ↦ before ∷ splitn (suc n) sep behind
]

unfoldable pub read_u16 : ℕ → Text → Result ℕ Text
read_u16 acc [] = ok acc
read_u16 acc (c ∷ s) =
    let next = acc * 10 + (c - b'0') in
    let rest = read_u16 next s in
    if leb b'0' c && leb c b'9'
    then if ltb next (2 ^ 16) then rest else err (codes "number too large to fit in target type")
    else err (codes "invalid digit found in string")

-- `parse::<u16>`, with the texts of its errors.
unfoldable pub parse_u16 : Text → Result ℕ Text
unfolding read_u16
parse_u16 [] = err (codes "cannot parse integer from empty string")
parse_u16 (c ∷ []) = read_u16 0 (c ∷ [])
parse_u16 (c ∷ d ∷ s) = if nat_beq c b'+' then read_u16 0 (d ∷ s) else read_u16 0 (c ∷ d ∷ s)

-- The status of a status line, its second part.
abbrev pub status_part : List Text → Result Text HttpError
status_part (version ∷ code ∷ parts) = ok code
status_part _ = err (decode (codes "missing status code"))

-- What the `http` crate does with a status, a name, a value and a map of headers.
pub record HttpTypes (S N V H : Type 0) : Type 0 where
  pub from_u16 : ℕ → Result S Text
  pub header_name : Text → Option N
  pub header_value : Text → Option V
  pub no_headers : H
  pub insert : H → N → V → H

pub record HttpResponse (S H : Type 0) : Type 0 where
  pub status : S
  pub headers : H
  pub body : Text

pub record HttpRequest : Type 0 where
  pub method : Text
  pub host_str : Option Text
  pub port_or_known_default : Option ℕ
  pub path : Text
  pub query : Option Text
  -- The user and the password.
  pub auth : Option (Text × Text)
  -- A name, and what `to_str` makes of its value.
  pub headers : List (Text × Option Text)
  pub body : Option Text

module _ {S N V H : Type 0} (types : HttpTypes S N V H) where
  abbrev pub insert_both : H → Option N → Option V → H
  insert_both map (some n) (some v) = types.insert map n v
  insert_both map _ _ = map

module _ (trim : Text → Text) {S N V H : Type 0} (types : HttpTypes S N V H) where
  -- One line of the header; an empty one has no colon.
  unfoldable pub header_line : H → Text → H
  unfolding split_once
  header_line map line = elim (split_once b':' line) [
    | none ↦ map
    | some (name, value) ↦
        insert_both types map (types.header_name (trim name)) (types.header_value (trim value))
  ]

  unfoldable pub header_lines : H → List Text → H
  unfolding header_line
  header_lines map [] = map
  header_lines map (line ∷ lines) = header_lines (header_line map line) lines

  unfoldable pub parse_lines : Text → List Text → Result (HttpResponse S H) HttpError
  unfolding splitn parse_u16 header_lines
  parse_lines body [] = err (decode (codes "missing status line"))
  parse_lines body (status_line ∷ lines) = status_part (splitn 3 b' ' status_line) >>= (λ code.
      map_err decode (parse_u16 code) >>= (λ status_code.
        map_err decode (types.from_u16 status_code) >>= (λ status. ok (record {
          status = status;
          headers = header_lines types.no_headers lines;
          body = body;
        }))))

  module _ (is_utf8 : Text → Bool) where
    unfoldable pub after_header_end : Text → ℕ → Result (HttpResponse S H) HttpError
    unfolding parse_lines split_crlf
    after_header_end raw header_end =
        if is_utf8 (take header_end raw)
        then parse_lines (drop (header_end + 4) raw) (split_crlf (take header_end raw))
        else err (decode (codes "non-UTF-8 header"))

    unfoldable pub parse_http_response : Text → Result (HttpResponse S H) HttpError
    unfolding find_header_end after_header_end
    parse_http_response raw = elim (find_header_end raw) [
      | none ↦ err (decode (codes "no header terminator"))
      | some header_end ↦ after_header_end raw header_end
    ]

unfoldable pub write_headers : List (Text × Option Text) → Result Text HttpError
write_headers [] = ok []
write_headers ((name, none) ∷ headers) = err (encode (codes "header value not ASCII"))
write_headers ((name, some v) ∷ headers) =
    write_headers headers >>= (λ rest. ok ((name ++ (b':' ∷ b' ' ∷ v)) ++ (crlf ++ rest)))

abbrev pub body_of : Option Text → Text
body_of none = []
body_of (some body) = body

-- The path, with the query where there is one.
abbrev pub target : HttpRequest → Text
target req = elim req.query [ none ↦ req.path | some q ↦ req.path ++ (b'?' ∷ q) ]

-- The bytes of a request, as `sync_execute` writes them.
module _ (base64 : Text → Text) where
  unfoldable pub authorization : Option (Text × Text) → Text
  authorization none = []
  authorization (some (username, password)) =
      (codes "Authorization: Basic " ++ base64 (username ++ (b':' ∷ password))) ++ crlf

  unfoldable pub request_bytes : HttpRequest → Text → Text → Result Text HttpError
  unfolding authorization write_headers
  request_bytes req host user_agent = write_headers req.headers >>= (λ headers. ok (
      (req.method ++ (b' ' ∷ target req) ++ codes " HTTP/1.1")
      ++ (crlf
          ++ ((codes "Host: " ++ host)
              ++ (crlf
                  ++ ((codes "User-Agent: " ++ user_agent)
                      ++ (crlf
                          ++ (codes "Connection: close"
                              ++ (crlf
                                  ++ (codes "Accept: */*"
                                      ++ (crlf
                                          ++ (authorization req.auth
                                              ++ (headers
                                                  ++ ((codes "Content-Length: "
                                                        ++ decimal (length (body_of req.body)))
                                                      ++ (crlf
                                                          ++ (crlf
                                                            ++ body_of req.body))))))))))))))))

-- The TLS stream: what it answers, with its error's text.
pub record Stream (K : Type 0) : Type 0 where
  pub tls_connect : Text → ℕ → Result K Text
  pub write_all : K → Text → K × Result (Unit {0}) Text
  pub flush : K → K × Result (Unit {0}) Text
  pub read_to_end : K → Result Text Text

module _ (is_utf8 : Text → Bool) (trim base64 : Text → Text) {S N V H K : Type 0}
    (types : HttpTypes S N V H) (stream : Stream K) where
  abbrev pub network_at : String → Text → HttpError
  network_at step e = network (codes step ++ codes ": " ++ e)

  -- The exchange over an open stream: write, flush and read to the end.
  unfoldable pub exchange : K → Text → Result Text HttpError
  exchange k request =
      let (k', written) = stream.write_all k request in
      let (k'', flushed) = stream.flush k' in
      map_err (network_at "write") written >>= (λ _.
        map_err (network_at "flush") flushed
        >>= (λ _. map_err (network_at "read") (stream.read_to_end k'')))

  abbrev pub host_of : Option Text → Result Text HttpError
  host_of none = err (invalid_url (codes "missing host"))
  host_of (some host) = ok host

  abbrev pub port_of : Option ℕ → ℕ
  port_of none = 443
  port_of (some port) = port

  unfoldable pub sync_execute : HttpRequest → Text → Result (HttpResponse S H) HttpError
  unfolding exchange request_bytes parse_http_response
  sync_execute req user_agent = host_of req.host_str >>= (λ host.
      map_err (network_at "tls connect")
        (stream.tls_connect host (port_of req.port_or_known_default))
      >>= (λ k. request_bytes base64 req host user_agent >>= (λ request.
          exchange k request >>= (λ raw. parse_http_response trim types is_utf8 raw))))
