-- ===== src/Http/Serialize.antt =====
-- Message::serialize, serialize_headers_only, make_response and default_reason_phrase.
use rtcvpn.Common.{
  ℕ, List, [], ◌∷◌, ◌++◌, Bool, false, not, ◌&&◌, Option, none, some, leb, ◌==◌, if◌then◌else◌,
  length, codes,
}
use rtcvpn.Http.Digits.{to_string, to_hex}
use rtcvpn.Http.{Header, ParserType, unknown, response, Message, has_header}

unfoldable pub default_reason_phrase : ℕ → List ℕ
default_reason_phrase status =
    if status == 200
    then codes "OK"
    else if status == 201
    then codes "Created"
    else if status == 204
    then codes "No Content"
    else if status == 301
    then codes "Moved Permanently"
    else if status == 302
    then codes "Found"
    else if status == 304
    then codes "Not Modified"
    else if status == 400
    then codes "Bad Request"
    else if status == 401
    then codes "Unauthorized"
    else if status == 403
    then codes "Forbidden"
    else if status == 404
    then codes "Not Found"
    else if status == 405
    then codes "Method Not Allowed"
    else if status == 408
    then codes "Request Timeout"
    else if status == 413
    then codes "Payload Too Large"
    else if status == 414
    then codes "URI Too Long"
    else if status == 431
    then codes "Request Header Fields Too Large"
    else if status == 500
    then codes "Internal Server Error"
    else if status == 501
    then codes "Not Implemented"
    else if status == 502
    then codes "Bad Gateway"
    else if status == 503
    then codes "Service Unavailable"
    else if status == 504
    then codes "Gateway Timeout"
    else codes "Unknown"

abbrev pub crlf : List ℕ
crlf = 13 ∷ 10 ∷ []

abbrev pub or_else : List ℕ → List ℕ → List ℕ
or_else [] d = d
or_else (c ∷ cs) d = c ∷ cs

abbrev pub http_version : Message → List ℕ
http_version m = if m.version == 10 then codes "HTTP/1.0" else codes "HTTP/1.1"

-- The first line.
pub start_line : ParserType → Message → List ℕ
start_line response m =
    http_version m
    ++ (codes " "
        ++ (to_string m.status_code
            ++ (codes " " ++ (or_else m.reason (default_reason_phrase m.status_code) ++ crlf))))
start_line _ m =
    or_else m.method (codes "GET")
    ++ (codes " " ++ (or_else m.target (codes "/") ++ (codes " " ++ (http_version m ++ crlf))))

-- `name: value` and the line end, for headers and for trailers.
pub header_lines : List Header → List ℕ
header_lines [] = []
header_lines (h ∷ hs) = h.name ++ (codes ": " ++ (h.value ++ (crlf ++ header_lines hs)))

abbrev pub framed : Message → Bool
framed m =
    not (has_header m (codes "Content-Length")) && not (has_header m (codes "Transfer-Encoding"))

-- A chunk, `<hex length>` and the bytes, each with a line end.
unfoldable pub chunk : List ℕ → List ℕ
chunk bytes = to_hex (length bytes) ++ (crlf ++ (bytes ++ crlf))

abbrev pub last_chunk : List ℕ
last_chunk = codes "0" ++ crlf

pub chunked_body : Message → List ℕ
chunked_body m =
    (if leb (length m.body) 0 then [] else chunk m.body)
    ++ (last_chunk ++ (header_lines m.trailers ++ crlf))

unfoldable pub serialize : Message → List ℕ
unfolding start_line header_lines chunked_body
serialize m =
    let framing =
      if framed m
      then (if m.chunked
          then codes "Transfer-Encoding: chunked" ++ crlf
          else codes "Content-Length: " ++ (to_string (length m.body) ++ crlf))
      else [] in
    start_line m.type m
    ++ (header_lines m.headers
        ++ (framing ++ (crlf ++ (if m.chunked then chunked_body m else m.body))))

abbrev forced_length : Option ℕ → List ℕ
forced_length none = []
forced_length (some n) = codes "Content-Length: " ++ (to_string n ++ crlf)

unfoldable pub serialize_headers_only : Message → Bool → Option ℕ → List ℕ
unfolding start_line header_lines
serialize_headers_only m force_chunked force_content_length =
    let framing =
      if framed m
      then (if force_chunked
          then codes "Transfer-Encoding: chunked" ++ crlf
          else forced_length force_content_length)
      else [] in
    start_line m.type m ++ (header_lines m.headers ++ (framing ++ crlf))

-- `Message{}`.
abbrev pub empty_message : Message
empty_message = record {
  type = unknown;
  version = 0;
  method = [];
  target = [];
  path = [];
  query = [];
  status_code = 0;
  reason = [];
  headers = [];
  trailers = [];
  body = [];
  keep_alive = false;
  connection_close = false;
  connection_keep_alive = false;
  chunked = false;
  upgrade = false;
  connect = false;
  has_body = false;
  content_length = none;
}

unfoldable pub make_response : ℕ → List ℕ → List Header → ℕ → List ℕ → Message
make_response status body_text extra_headers version reason_phrase = record empty_message {
  type = response;
  version = version;
  status_code = status;
  reason = or_else reason_phrase (default_reason_phrase status);
  headers = extra_headers;
  body = body_text;
  has_body = not (leb (length body_text) 0);
}
