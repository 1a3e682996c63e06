-- ===== src/App/Tests.antt =====
-- Runs of the client's pipe and of its SOCKS server.
use rtcvpn.Common.{
  ℕ, ◌^◌, ◌<◌, ◌≤◌, ◌≡◌, refl, List, [], ◌∷◌, true, false, not, ◌&&◌, elem, arith, length,
}
use rtcvpn.Common.{none, some, take, codes}
use rtcvpn.Protocol.Types.{connected, socks5_connect, wait_socks_methods}
use rtcvpn.Mux
use rtcvpn.Mux.{SessionMux, on_p2p_data, data_call, send_call}
use rtcvpn.Mux.Manager.{Session, session_of}
use rtcvpn.Client
use rtcvpn.Client.{tcp_send}
use rtcvpn.Client.Handlers.{process_data}
use rtcvpn.Client.Callbacks.{p2p_data}
use rtcvpn.Client.Wiring.{Installed}
use rtcvpn.Server
use rtcvpn.Server.{TunnelSession, new_tunnel, tcp, target_send, send_data, on_data, p2p_rev_data}
use rtcvpn.Server.Closing.{IsOpen}
use rtcvpn.Server.Process
use rtcvpn.App.Tunnel.{browser_reaches_target, target_reaches_browser}
use rtcvpn.P2p.{Controller, init, dc_send}
use rtcvpn.P2p.Library.{all_well}
use rtcvpn.Server.Ids.{create_session_id}
use rtcvpn.App.{send_out, receive}
use rtcvpn.App.SocksServer.{accepted, failed, on_accept, on_session_close, stop}
use rtcvpn.App.Pipe.{pipe_transparent}
use rtcvpn.App.Sessions.{
  Event, accept, session_closed, closed_by, initial, step, run, stop_closes_open_sessions,
}

abbrev two_bytes : List ℕ
two_bytes = 1 ∷ 2 ∷ []

abbrev in_call : Controller
in_call = record (init []) { pc = true; dc = true }

pipe_transparent_example :
    (length two_bytes < 2 ^ 32
      → in_call.dc && all_well.dc_is_open ≡ true
      → (message : List ℕ) × (send_out all_well two_bytes in_call ≡ dc_send message ∷ [])
        × ((mux : SessionMux) → receive mux message ≡ on_p2p_data mux two_bytes))
    × (2 ^ 32 ≤ length two_bytes → send_out all_well two_bytes in_call ≡ [])
    × (in_call.dc && all_well.dc_is_open ≡ false → send_out all_well two_bytes in_call ≡ [])
pipe_transparent_example = pipe_transparent all_well in_call two_bytes

-- Three browsers, of which the second closes.
abbrev three_browsers : List Event
three_browsers =
    accept accepted ∷ accept failed ∷ accept accepted ∷ session_closed 2 ∷ accept accepted ∷ []

three_browsers_made : (run three_browsers initial).server.made ≡ 3
unfolding run step on_accept on_session_close create_session_id
three_browsers_made = refl

stop_closes_open_sessions_example :
    elem 2 (closed_by (stop (run three_browsers initial).server).1)
    ≡ not (elem 3 (run three_browsers initial).closed)
stop_closes_open_sessions_example =
    stop_closes_open_sessions three_browsers 2 (rw three_browsers_made (omega arith))
      (rw three_browsers_made (omega arith))

-- Stream 7 at both ends, with a browser that is connected and an open tunnel.
abbrev seven : Session
seven = record {
  stream_id = 7;
  on_data = some 100;
  on_synack = none;
  on_close = none;
  on_data_ctrl = none;
}

abbrev mux : SessionMux
mux = record {
  session_manager = record { sessions = (7, 0) ∷ []; objects = seven ∷ [] };
  send_func = some 1;
  peer_conn_id = 2;
  on_syn = some 5;
}

seven_found : session_of mux.session_manager 7 ≡ some seven
unfolding session_of
seven_found = refl

abbrev browser : Client.Socks5Session
browser = record (Client.new_session 1) {
  phase = connected;
  protocol = socks5_connect;
  session = some 7;
}

abbrev tunnel : TunnelSession
tunnel = record (new_tunnel 7 socks5_connect) { session = true }

tunnel-IsOpen : IsOpen tunnel tcp
unfolding new_tunnel
tunnel-IsOpen = record {
  has_kind = refl;
  has_socket = refl;
  not_closed = refl;
  interface_open = refl;
  peer_open = refl;
  bound = refl;
}

browser_reaches_target_example :
    let payload = take 3 (codes "hello") in
    (process_data 8 [] (codes "hello") 3 browser
      ≡ some (tt, browser, Client.send_data 7 payload socks5_connect ∷ []))
    × ((frame : List ℕ) × (message : List ℕ) × (Mux.send_data mux 7 payload socks5_connect
          ≡ some (send_call 1 2 frame))
        × (send_out all_well frame in_call ≡ dc_send message ∷ [])
        × (receive mux message ≡ some (data_call 100 payload socks5_connect)))
    × (p2p_rev_data 0 payload socks5_connect tunnel ≡ some (tunnel, target_send payload ∷ []))
browser_reaches_target_example =
    browser_reaches_target browser tunnel mux mux seven in_call all_well 7 1 100 8 3 0 []
      (codes "hello") socks5_connect refl refl refl tt (omega arith) (omega arith) refl refl
      seven_found refl tunnel-IsOpen

abbrev answer : List ℕ
answer = codes "hi"

abbrev tunnel_7 : TunnelSession
tunnel_7 = record tunnel { stream_id = 7; protocol = socks5_connect }

target_reaches_browser_example :
    (on_data answer tunnel_7 ≡ send_data 7 answer socks5_connect ∷ [])
    × ((frame : List ℕ) × (message : List ℕ) × (Mux.send_data mux 7 answer socks5_connect
          ≡ some (send_call 1 2 frame))
        × (send_out all_well frame in_call ≡ dc_send message ∷ [])
        × (receive mux message ≡ some (data_call 100 answer socks5_connect)))
    × (p2p_data answer socks5_connect browser ≡ some (tt, browser, tcp_send answer ∷ []))
target_reaches_browser_example =
    target_reaches_browser browser tunnel_7 mux mux seven in_call all_well 1 100 answer tt
      (omega arith) (omega arith) refl refl seven_found refl refl

abbrev choosing : Client.Socks5Session
choosing = record (Client.new_session 1) { phase = wait_socks_methods }

abbrev callbacks : Installed
callbacks = record { on_data = 10; on_synack = 11; on_close = 12 }

abbrev accepted_client : Process.Socks5Session
accepted_client = Process.new_session 3 (codes "pw")
