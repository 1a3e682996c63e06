-- ===== src/Server/Tests.antt =====
-- A tunnel of stream 7 at the server, and its two ends.
use rtcvpn.Common.{◌+◌, ◌-◌, ◌%◌, ◌≡◌, refl, arith, [], ◌∷◌, true, false, none, some, codes}
use rtcvpn.Protocol.Types.{socks5_connect}
use rtcvpn.Common.{◌++◌}
use rtcvpn.Server.{
  TunnelSession, tcp, udp, send_data, send_fin, remove_session, call_close, target_close,
  target_send, target_send_to, on_data, p2p_rev_data, on_syn, close, on_target_closed,
}
use rtcvpn.Server.Closing.{IsOpen}
use rtcvpn.Protocol.Origin.{slash, http}
use rtcvpn.Http.{Message}
use rtcvpn.Http.Parser.{headers_complete}
use rtcvpn.Http.Serialize.{empty_message, serialize_headers_only}
use rtcvpn.Server
use rtcvpn.Server.Request.{on_request_notice, forwards_origin_form}
use rtcvpn.Server.Ids.{ids_after, ids_cycle}

abbrev tunnel : TunnelSession
tunnel = record {
  stream_id = 7;
  protocol = socks5_connect;
  kind = some tcp;
  socket = true;
  interface_closed = false;
  is_p2p_closed = false;
  is_closed = false;
  session = true;
  close_func = true;
}

ids_cycle_example : ids_after 65536 1 ≡ (1 - 1 + 65536) % 65536 + 1
ids_cycle_example = ids_cycle 65536 1 (omega arith) (omega arith)

abbrev http_tunnel : TunnelSession
http_tunnel = record tunnel { kind = some Server.http }

http_tunnel-IsOpen : IsOpen http_tunnel Server.http
http_tunnel-IsOpen = record {
  has_kind = refl;
  has_socket = refl;
  not_closed = refl;
  interface_open = refl;
  peer_open = refl;
  bound = refl;
}

abbrev request : Message
request = record empty_message { target = http ++ (codes "h" ++ slash ∷ codes "p") }

forwards_origin_form_example :
    on_request_notice false (headers_complete request) http_tunnel
    ≡ some (
      http_tunnel,
      target_send
            (serialize_headers_only (record request { target = slash ∷ codes "p" }) false none)
          ∷ [],
    )
forwards_origin_form_example =
    forwards_origin_form http_tunnel false request (codes "h") (codes "p") http_tunnel-IsOpen refl
      (omega arith, tt)
