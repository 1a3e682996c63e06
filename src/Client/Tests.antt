-- ===== src/Client/Tests.antt =====
-- Sessions at concrete bytes: requests, greetings and the ends of a connection.
use rtcvpn.Common.{ℕ, ◌≡◌, refl, List, [], ◌∷◌, true, none, some, codes, arith}
use rtcvpn.Protocol.Types.{wait_socks_methods, socks5_connect}
use rtcvpn.Mux.Manager.{empty_manager}
use rtcvpn.Mux.Manager.Sessions.{empty-IsWellFormed}
use rtcvpn.Mux.{SessionMux, send_call, syn_call, data_call, on_p2p_data}
use rtcvpn.Client.Text.{dotted}
use rtcvpn.Client.{Socks5Session, new_session, tcp_send, ◌>>◌}
use rtcvpn.Client.Handlers.{process_data}
use rtcvpn.Client.Request.{connecting_to, connect_effects}
use rtcvpn.Client.Greeting.{command_ignored}
use rtcvpn.Common.{Option, All, if◌then◌else◌}
use rtcvpn.Protocol.Types.{udp_associate}
use rtcvpn.Protocol.Udp.{encode_udp_payload}
use rtcvpn.Mux.Manager.{session_of}
use rtcvpn.Mux
use rtcvpn.Client.Handlers.{slice, text_eq}
use rtcvpn.Client.Udp
use rtcvpn.Client.Udp.{UdpSession, send_p2p_data, send_ipv4}
use rtcvpn.Client.Udp.Stream.{frame_of, udp_data_unheard}

abbrev greeting : Socks5Session
greeting = new_session 1

abbrev choosing : Socks5Session
choosing = record (new_session 1) { phase = wait_socks_methods }

abbrev mux : SessionMux
mux = record {
  session_manager = empty_manager;
  send_func = some 1;
  peer_conn_id = 2;
  on_syn = some 5;
}

-- A request for 1.2.3.4 at port 443.
abbrev request : List ℕ
request = 5 ∷ 1 ∷ 0 ∷ 1 ∷ 1 ∷ 2 ∷ 3 ∷ 4 ∷ 1 ∷ 187 ∷ []

command_ignored_example :
    (process_data 6 [] (5 ∷ 1 ∷ 0 ∷ []) 3
        >> process_data 7 [] (5 ∷ 3 ∷ 0 ∷ 1 ∷ 1 ∷ 2 ∷ 3 ∷ 4 ∷ 1 ∷ 187 ∷ []) 10)
      greeting
    ≡ some (
      tt,
      connecting_to greeting 7 (dotted 1 2 3 4) 443 socks5_connect,
      tcp_send (5 ∷ 0 ∷ []) ∷ connect_effects 7 (dotted 1 2 3 4) 443 socks5_connect,
    )
command_ignored_example =
    command_ignored greeting 6 [] 1 (0 ∷ []) refl refl 7 10 [] 5 3 0 1 2 3 4 1 187 [] refl
      (omega arith)

abbrev association : UdpSession
association = record {
  client_known = true;
  remote_ip = codes "10.0.0.2";
  remote_port = 4000;
  session_id = 1;
}

-- make_address_v4 on the one address that the examples use.
abbrev parse_v4 : List ℕ → Option (List ℕ)
parse_v4 text = if text_eq text (codes "1.2.3.4") then some (1 ∷ 2 ∷ 3 ∷ 4 ∷ []) else none

short_datagram_sent :
    send_p2p_data association (0 ∷ 0 ∷ 0 ∷ 1 ∷ 1 ∷ 2 ∷ 3 ∷ 4 ∷ 0 ∷ 53 ∷ []) 10
    ≡ some (Udp.send_data 1 (encode_udp_payload (dotted 1 2 3 4) 53 []) udp_associate ∷ [])
unfolding send_p2p_data send_ipv4 slice
short_datagram_sent = refl

no_session : session_of mux.session_manager 1 ≡ none
unfolding session_of
no_session = refl

udp_data_unheard_example :
    All
      (λ e. on_p2p_data (Mux.create_session mux 7).0 (frame_of e) ≡ none)
      (Udp.send_data 1 (encode_udp_payload (dotted 1 2 3 4) 53 []) udp_associate ∷ [])
udp_data_unheard_example =
    udp_data_unheard mux association 7 10 (0 ∷ 0 ∷ 0 ∷ 1 ∷ 1 ∷ 2 ∷ 3 ∷ 4 ∷ 0 ∷ 53 ∷ [])
      (Udp.send_data 1 (encode_udp_payload (dotted 1 2 3 4) 53 []) udp_associate ∷ [])
      empty-IsWellFormed no_session (omega arith) (omega arith) short_datagram_sent
