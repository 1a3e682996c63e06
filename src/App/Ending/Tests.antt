-- ===== src/App/Ending/Tests.antt =====
-- Stream 7 at both ends, as its connection comes about and ends.
use rtcvpn.Common.{ℕ, ◌≡◌, refl, List, [], ◌∷◌, ◌++◌, true, false, none, some, if◌then◌else◌, arith}
use rtcvpn.Protocol.Types.{socks5_connect, connecting, connected, closed}
use rtcvpn.Mux
use rtcvpn.Mux.{SessionMux, send_call, close_call, synack_call}
use rtcvpn.Mux.Manager.{Session, session_of}
use rtcvpn.Client
use rtcvpn.Client.{◌>>◌, tcp_send, tcp_close, call_on_close}
use rtcvpn.Client.Handlers.{socks_reply}
use rtcvpn.Client.Callbacks.{p2p_synack, p2p_close, on_tcp_closed}
use rtcvpn.Server
use rtcvpn.Server.{TunnelSession, new_tunnel, tcp, on_connected, on_target_closed}
use rtcvpn.Server.Closing.{IsOpen, ended, then_closed}
use rtcvpn.P2p.{Controller, init}
use rtcvpn.P2p.Library.{all_well}
use rtcvpn.App.Ending.{
  Arrives, outcome_reaches_browser, browser_close_ends_tunnel, target_close_ends_session,
}

abbrev in_call : Controller
in_call = record (init []) { pc = true; dc = true }

abbrev seven : Session
seven = record {
  stream_id = 7;
  on_data = some 100;
  on_synack = some 101;
  on_close = some 102;
  on_data_ctrl = none;
}

abbrev mux : SessionMux
mux = record {
  session_manager = record { sessions = (7, 0) ∷ []; objects = seven ∷ [] };
  send_func = some 1;
  peer_conn_id = 2;
  on_syn = some 5;
}

seven_found : session_of mux.session_manager 7 ≡ some seven
unfolding session_of
seven_found = refl

abbrev waiting : Client.Socks5Session
waiting = record (Client.new_session 1) {
  phase = connecting;
  protocol = socks5_connect;
  session = some 7;
  on_close = true;
}

abbrev browser : Client.Socks5Session
browser = record waiting { phase = connected }

abbrev tunnel : TunnelSession
tunnel = record (new_tunnel 7 socks5_connect) {
  stream_id = 7;
  protocol = socks5_connect;
  session = true;
}

tunnel-IsOpen : IsOpen tunnel tcp
unfolding new_tunnel
tunnel-IsOpen = record {
  has_kind = refl;
  has_socket = refl;
  not_closed = refl;
  interface_open = refl;
  peer_open = refl;
  bound = refl;
}

outcome_reaches_browser_example :
    (on_connected false tunnel ≡ Server.send_synack 7 false socks5_connect ∷ [])
    × ((frame : List ℕ) × (Mux.send_synack mux 7 false socks5_connect ≡ some (send_call 1 2 frame))
        × Arrives in_call all_well mux frame (synack_call 101 false socks5_connect))
    × (p2p_synack [] 0 false socks5_connect waiting ≡ (
        if false
        then some (tt, record waiting { phase = connected }, tcp_send (socks_reply 0x00) ∷ [])
        else some
            (tt, record waiting { phase = closed }, tcp_send (socks_reply 0x05) ∷ tcp_close ∷ [])))
outcome_reaches_browser_example =
    outcome_reaches_browser waiting tunnel mux mux seven in_call all_well 1 101 0 [] false refl
      (omega arith) refl refl seven_found refl refl

browser_close_ends_tunnel_example :
    (on_tcp_closed browser
      ≡ some (
        tt,
        record browser { is_closed = true; tcp_socket = false },
        Client.send_fin 7 socks5_connect ∷ call_on_close browser.session_id ∷ [],
      ))
    × ((frame : List ℕ) × (Mux.send_fin mux 7 socks5_connect ≡ some (send_call 1 2 frame))
        × Arrives in_call all_well mux frame (close_call 102 socks5_connect))
    × (then_closed (Server.close tunnel)
        ≡ some (
          ended tunnel true,
          Server.target_close ∷ Server.remove_session 7 ∷ Server.call_close 7 ∷ [],
        ))
browser_close_ends_tunnel_example =
    browser_close_ends_tunnel browser tunnel tcp mux mux seven in_call all_well 7 1 102 refl refl
      refl refl tt (omega arith) refl refl seven_found refl tunnel-IsOpen

target_close_ends_session_example :
    (on_target_closed tunnel ≡ (
      ended tunnel false,
      Server.send_fin 7 socks5_connect ∷ Server.remove_session 7 ∷ Server.call_close 7 ∷ [],
    ))
    × ((frame : List ℕ) × (Mux.send_fin mux 7 socks5_connect ≡ some (send_call 1 2 frame))
        × Arrives in_call all_well mux frame (close_call 102 socks5_connect))
    × ((p2p_close >> on_tcp_closed) browser
        ≡ some (
          tt,
          record browser { is_p2p_closed = true; is_closed = true; tcp_socket = false },
          (if browser.tcp_socket then tcp_close ∷ [] else [])
              ++ (if browser.is_closed
                  then []
                  else if browser.on_close
                  then call_on_close browser.session_id ∷ []
                  else []),
        ))
target_close_ends_session_example =
    target_close_ends_session browser tunnel tcp mux mux seven in_call all_well 1 102 tt
      (omega arith) refl refl seven_found refl tunnel-IsOpen
