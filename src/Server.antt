-- ===== src/Server.antt =====
-- Src/server: what a SYN starts. TunnelSession (tunel_session.h, tunel_session.cpp) with the
-- SessionInterface (session_interface.h) that it owns: TcpSession (tcp_session.cpp), HttpSession
-- (http_session.cpp) or UdpClient (udp_session.cpp). A method gives none where the program
-- follows a null pointer or calls an empty std::function, and else the new state and its effects.
pub mod Closing
pub mod Opening
pub mod Transport
pub mod Request
pub mod Ids
pub mod Interface
pub mod Process
mod Tests
use rtcvpn.Common.{
  ℕ, List, [], ◌∷◌, ◌++◌, Bool, true, false, not, ◌&&◌, Option, none, some, if◌then◌else◌, ◌>>=◌,
}
use rtcvpn.Protocol.Types.{
  CtrlType, receive, pause, Protocol, unknown, socks5_connect, http_plain, https_connect,
  udp_associate, WriteQueueStatus,
}
use rtcvpn.Protocol.Udp.{Datagram, encode_udp_payload, decode_udp_payload}

-- The class of session_interface_.
pub data Kind : Type 0 where
  tcp http udp : Kind

-- `kind` is the class of session_interface_, if that is not null; `socket` is whether the socket
-- of the interface is not null, and `interface_closed` and `is_p2p_closed` are its flags;
-- `session` is whether session_ is not null, and `close_func` whether close_func_ is bound.
pub record TunnelSession : Type 0 where
  pub stream_id : ℕ
  pub protocol : Protocol
  pub kind : Option Kind
  pub socket : Bool
  pub interface_closed : Bool
  pub is_p2p_closed : Bool
  pub is_closed : Bool
  pub session : Bool
  pub close_func : Bool

pub data Effect : Type 0 where
  create_session : ℕ → Effect
  set_on_data set_on_close set_on_data_ctrl : ℕ → Effect
  send_data : ℕ → List ℕ → Protocol → Effect
  send_fin : ℕ → Protocol → Effect
  send_synack : ℕ → Bool → Protocol → Effect
  remove_session : ℕ → Effect
  call_close : ℕ → Effect
  target_connect : List ℕ → ℕ → Effect
  target_open target_close target_start_reading target_stop_reading : Effect
  target_send : List ℕ → Effect
  target_send_to : List ℕ → List ℕ → ℕ → Effect
  feed_request : List ℕ → Effect

abbrev pub Result : Type 0
Result = Option (TunnelSession × List Effect)

-- The switch of the constructor.
unfoldable pub kind_of : Protocol → Option Kind
kind_of http_plain = some http
kind_of udp_associate = some udp
kind_of socks5_connect = some tcp
kind_of https_connect = some tcp
kind_of _ = none

-- TunnelSession::TunnelSession, and bind_close_func.
unfoldable pub new_tunnel : ℕ → Protocol → TunnelSession
unfolding kind_of
new_tunnel sid p = record {
  stream_id = sid;
  protocol = p;
  kind = kind_of p;
  socket = true;
  interface_closed = false;
  is_p2p_closed = false;
  is_closed = false;
  session = false;
  close_func = true;
}

-- TcpSession::start, HttpSession::start and UdpClient::start, behind the installation of the
-- callbacks on the socket: on_connected, on_data or on_datagram, on_write_queue and
-- on_target_closed.
abbrev tcp_start : List ℕ → ℕ → Effect
tcp_start host port = target_connect host port

abbrev http_start : List ℕ → ℕ → Effect
http_start host port = target_connect host port

abbrev udp_start : Effect
udp_start = target_open

-- The start of session_interface_.
abbrev start_interface : Kind → List ℕ → ℕ → Effect
start_interface tcp host port = tcp_start host port
start_interface http host port = http_start host port
start_interface udp host port = udp_start

-- TunnelSession::start, with init.
unfoldable pub start : List ℕ → ℕ → TunnelSession → Result
start host port t = do
  k ← t.kind
  some (
    record t { session = true },
    create_session t.stream_id
        ∷ set_on_data t.stream_id
        ∷ set_on_close t.stream_id
        ∷ set_on_data_ctrl t.stream_id
        ∷ start_interface k host port
        ∷ [],
  )

-- The SYN handler that the server's Socks5Session installs.
unfoldable pub on_syn : ℕ → List ℕ → ℕ → Protocol → Result
unfolding new_tunnel start
on_syn sid host port p = start host port (new_tunnel sid p)

-- An effect on the socket of the interface, which is a fault if either is null.
abbrev on_socket : Effect → TunnelSession → Result
on_socket e t = do k ← t.kind; if t.socket then some (t, e ∷ []) else none

-- close, start_receive and pause_receive, which are alike in the three classes.
abbrev close_interface : TunnelSession → Result
close_interface t = on_socket target_close t

abbrev start_receive : TunnelSession → Result
start_receive t = on_socket target_start_reading t

abbrev pause_receive : TunnelSession → Result
pause_receive t = on_socket target_stop_reading t

-- UdpClient::revP2pData. The result of decode_udp_payload is not looked at, and `data` is not
-- null behind it; `garbage` is what remote_port holds before it is assigned.
unfoldable pub udp_rev : ℕ → List ℕ → TunnelSession → Result
udp_rev garbage bytes t =
    let m =
      (decode_udp_payload bytes (record { host = []; port = garbage; payload = [] })).datagram in
    on_socket (target_send_to m.payload m.host m.port) t

-- revP2pData of each class.
unfoldable pub rev_p2p_data : ℕ → List ℕ → TunnelSession → Result
unfolding udp_rev
rev_p2p_data garbage bytes t = do
  k ← t.kind
  elim k [
    | tcp ↦ on_socket (target_send bytes) t
    | http ↦ some (t, feed_request bytes ∷ [])
    | udp ↦ udp_rev garbage bytes t
  ]

-- TunnelSession::p2p_revData.
unfoldable pub p2p_rev_data : ℕ → List ℕ → Protocol → TunnelSession → Result
unfolding rev_p2p_data
p2p_rev_data garbage bytes http_plain t = rev_p2p_data garbage bytes t
p2p_rev_data garbage bytes udp_associate t = rev_p2p_data garbage bytes t
p2p_rev_data garbage bytes socks5_connect t = rev_p2p_data garbage bytes t
p2p_rev_data garbage bytes https_connect t = rev_p2p_data garbage bytes t
p2p_rev_data garbage bytes _ t = some (t, [])

-- TunnelSession::p2p_revCtrl.
unfoldable pub p2p_rev_ctrl : CtrlType → TunnelSession → Result
p2p_rev_ctrl receive t = start_receive t
p2p_rev_ctrl pause t = pause_receive t
p2p_rev_ctrl _ t = some (t, [])

-- TunnelSession::close, with SessionInterface::stop; the peer's FIN calls it.
unfoldable pub close : TunnelSession → Result
close t = close_interface (record t { is_p2p_closed = true })

-- The connect callback of a TCP socket and the open callback of a UDP socket.
unfoldable pub on_connected : Bool → TunnelSession → List Effect
on_connected ok t = send_synack t.stream_id ok t.protocol ∷ []

-- The data callback of a TCP socket.
unfoldable pub on_data : List ℕ → TunnelSession → List Effect
on_data bytes t = send_data t.stream_id bytes t.protocol ∷ []

-- The data callback of a UDP socket.
unfoldable pub on_datagram : List ℕ → ℕ → List ℕ → TunnelSession → List Effect
on_datagram host port bytes t =
    send_data t.stream_id (encode_udp_payload host port bytes) t.protocol ∷ []

-- The write queue callback: SessionInterface::send_data_ctrl calls send_data_ctrl_, which
-- TunnelSession::init does not bind.
unfoldable pub on_write_queue : WriteQueueStatus → TunnelSession → Result
on_write_queue status t = none

-- The function that init binds as the close function of the interface.
unfoldable pub close_tunnel : TunnelSession → TunnelSession × List Effect
close_tunnel t =
    if t.is_closed then (record t { session = false }, remove_session t.stream_id ∷ []) else (
      record t { session = false; is_closed = true; kind = none },
      remove_session t.stream_id ∷ (if t.close_func then call_close t.stream_id ∷ [] else []),
    )

-- SessionInterface::closeSession.
unfoldable pub close_session : TunnelSession → TunnelSession × List Effect
unfolding close_tunnel
close_session t =
    let fin = if t.is_p2p_closed then [] else send_fin t.stream_id t.protocol ∷ [] in
    let (closed, es) = close_tunnel (record t { interface_closed = true }) in
    if t.interface_closed then (t, []) else (closed, fin ++ es)

-- The close callback of the socket.
unfoldable pub on_target_closed : TunnelSession → TunnelSession × List Effect
unfolding close_session
on_target_closed t = let (closed, es) = close_session t in (record closed { socket = false }, es)
