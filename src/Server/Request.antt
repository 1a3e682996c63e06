-- ===== src/Server/Request.antt =====
-- The callbacks of HttpSession's request parser: how a request from the tunnel is written to the
-- target (Src/server/src/http_session.cpp).
use rtcvpn.Common.{
  ℕ, ◌≡◌, ◌≢◌, arith, List, [], ◌∷◌, ◌++◌, Bool, false, none, some, if◌then◌else◌, All,
}
use rtcvpn.Protocol.Origin.{slash, http, to_origin_form}
use rtcvpn.Protocol.Origin.Laws.{to_origin_form_url}
use rtcvpn.Http.{Message}
use rtcvpn.Http.Parser.{Notice, headers_complete, body_part, complete, failed}
use rtcvpn.Http.Serialize.{chunk, last_chunk, crlf, serialize_headers_only}
use rtcvpn.Server.{TunnelSession, Result, target_send, target_close, on_socket}
use rtcvpn.Server
use rtcvpn.Server.Closing.{IsOpen}

-- `is_chunked` is what http_parse_request_.message().chunked gives.
unfoldable pub on_request_notice : Bool → Notice → TunnelSession → Result
on_request_notice is_chunked (headers_complete m) t =
    on_socket
      (target_send
        (serialize_headers_only (record m { target = to_origin_form m.target }) false none))
      t
on_request_notice is_chunked (body_part bytes) t =
    on_socket (target_send (if is_chunked then chunk bytes else bytes)) t
on_request_notice is_chunked (failed code) t = on_socket target_close t
on_request_notice is_chunked complete t =
    if is_chunked then on_socket (target_send (last_chunk ++ crlf)) t else some (t, [])
on_request_notice is_chunked _ t = some (t, [])

-- On an open HTTP tunnel, the headers of a request whose target is an http URL with an authority
-- without a slash and a path are sent to the target with that path as the target, and otherwise as
-- they are.
pub forwards_origin_form :
    (t : TunnelSession) (is_chunked : Bool) (m : Message) (host path : List ℕ)
    → IsOpen t Server.http
    → m.target ≡ http ++ (host ++ slash ∷ path)
    → All (λ c. c ≢ slash) host
    → on_request_notice is_chunked (headers_complete m) t
      ≡ some (
        t,
        target_send (serialize_headers_only (record m { target = slash ∷ path }) false none) ∷ [],
      )
unfolding on_request_notice
forwards_origin_form t is_chunked m host path o e h =
    rw (e, (to_origin_form_url host path h).0) (ground arith)
