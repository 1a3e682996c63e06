-- ===== src/Client/Response.antt =====
-- The callbacks of http_response_parser_: how a response from the tunnel is written to the browser.
use Prim.Native.Nat.{ℕ}
use rtcvpn.Common.{List, [], ◌∷◌, ◌++◌, Bool, false, none, if◌then◌else◌}
use rtcvpn.Http.Parser.{Notice, headers_complete, body_part, complete, failed}
use rtcvpn.Http.Serialize.{chunk, last_chunk, crlf, serialize_headers_only}
use rtcvpn.Client.{Effect, tcp_send, tcp_close, M, ◌>>◌, skip, on_tcp}

-- `is_chunked` is what http_response_parser_.is_chunked() gives.
unfoldable pub on_response_notice : Bool → Notice → M (Unit {0})
on_response_notice is_chunked (headers_complete m) =
    on_tcp (tcp_send (serialize_headers_only m false none))
on_response_notice is_chunked (body_part bytes) =
    on_tcp (tcp_send (if is_chunked then chunk bytes else bytes))
on_response_notice is_chunked (failed code) = on_tcp tcp_close
on_response_notice is_chunked complete =
    if is_chunked then on_tcp (tcp_send (last_chunk ++ crlf)) else skip
on_response_notice is_chunked _ = skip

unfoldable pub on_response_notices : Bool → List Notice → M (Unit {0})
unfolding on_response_notice
on_response_notices is_chunked [] = skip
on_response_notices is_chunked (n ∷ ns) = do
  on_response_notice is_chunked n
  on_response_notices is_chunked ns

-- The bytes that effects send to the browser.
abbrev pub written : List Effect → List ℕ
written [] = []
written (tcp_send bytes ∷ es) = bytes ++ written es
written (_ ∷ es) = written es

-- The callbacks of a body in parts.
abbrev pub body_notices : List (List ℕ) → List Notice
body_notices [] = complete ∷ []
body_notices (b ∷ bs) = body_part b ∷ body_notices bs

abbrev relayed : List (List ℕ) → List Effect
relayed [] = tcp_send (last_chunk ++ crlf) ∷ []
relayed (b ∷ bs) = tcp_send (chunk b) ∷ relayed bs
