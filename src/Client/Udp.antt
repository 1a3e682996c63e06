-- ===== src/Client/Udp.antt =====
-- Src/client/include/udp_session.h and Src/client/src/udp_session.cpp: UdpSession, the local end
-- of a UDP association. A method gives none where the program faults, as in Client. `bytes` is
-- the memory from the data pointer to the end of the receive buffer, of which `n` bytes are data.
pub mod Relay
pub mod Stream
use rtcvpn.Common.{
  ℕ, ◌+◌, ◌-◌, ◌*◌, ◌/◌, ◌^◌, ◌%◌, List, [], ◌∷◌, ◌++◌, Bool, true, false, not, Option, none, some,
  ltb, ◌==◌, if◌then◌else◌, ◌>>=◌, get_elem?,
}
use rtcvpn.Protocol.Types.{
  CtrlType, receive, pause, Protocol, udp_associate, WriteQueueStatus, danger, safety,
}
use rtcvpn.Protocol.Udp.{Datagram, Decoded, encode_udp_payload, decode_udp_payload}
use rtcvpn.Client.Text.{dotted}
use rtcvpn.Client.Handlers.{slice, text_eq}

pub record UdpSession : Type 0 where
  pub client_known : Bool
  pub remote_ip : List ℕ
  pub remote_port : ℕ
  pub session_id : ℕ

pub data Effect : Type 0 where
  send_data : ℕ → List ℕ → Protocol → Effect
  send_data_ctrl : ℕ → CtrlType → Protocol → Effect
  send_synack : ℕ → Bool → Protocol → Effect
  socket_send : List ℕ → List ℕ → ℕ → Effect
  socket_start_reading socket_stop_reading socket_close : Effect

-- UdpSession::UdpSession; remote_port_ is not initialised, and not read before it is assigned.
abbrev pub new_udp_session : ℕ → UdpSession
new_udp_session id = record {
  client_known = false;
  remote_ip = [];
  remote_port = 0;
  session_id = id;
}

-- send_ipv4.
unfoldable pub send_ipv4 : UdpSession → List ℕ → ℕ → Option (List Effect)
send_ipv4 u bytes n = if ltb n 10 then some [] else (do
  a ← get_elem? bytes 4
  b ← get_elem? bytes 5
  c ← get_elem? bytes 6
  d ← get_elem? bytes 7
  hi ← get_elem? bytes 8
  lo ← get_elem? bytes 9
  rest ← slice bytes 10 (n - 10)
  let port = (hi * 2 ^ 8 + lo) % 2 ^ 16
  some (send_data u.session_id (encode_udp_payload (dotted a b c d) port rest) udp_associate ∷ []))

-- send_domain behind its tests; the length behind the header is a size_t and wraps.
send_named : UdpSession → List ℕ → ℕ → ℕ → Option (List Effect)
send_named u bytes n len = do
  host ← slice bytes 5 len
  hi ← get_elem? bytes (6 + len)
  lo ← get_elem? bytes (7 + len)
  rest ← slice bytes (8 + len) ((n + (2 ^ 64 - (8 + len))) % 2 ^ 64)
  let port = (hi * 2 ^ 8 + lo) % 2 ^ 16
  some (send_data u.session_id (encode_udp_payload host port rest) udp_associate ∷ [])

unfoldable pub send_domain : UdpSession → List ℕ → ℕ → Option (List Effect)
unfolding send_named
send_domain u bytes n = if ltb n 5 then some [] else (do
  len ← get_elem? bytes 4
  if ltb n (5 + len + 2) then some [] else send_named u bytes n len)

-- send_p2p_data.
unfoldable pub send_p2p_data : UdpSession → List ℕ → ℕ → Option (List Effect)
unfolding send_ipv4 send_domain
send_p2p_data u bytes n = do
  kind ← get_elem? bytes 3
  if kind == 0x01
      then send_ipv4 u bytes n
      else if kind == 0x03
      then send_domain u bytes n
      else some []

abbrev forward : UdpSession → List ℕ → ℕ → Option (UdpSession × List Effect)
forward u bytes n = do es ← send_p2p_data u bytes n; some (u, es)

-- The data callback that start installs.
unfoldable pub on_datagram :
    UdpSession → List ℕ → ℕ → List ℕ → ℕ → Option (UdpSession × List Effect)
on_datagram u ip port bytes n =
    if not u.client_known
    then forward (record u { remote_ip = ip; remote_port = port; client_known = true }) bytes n
    else if not (text_eq ip u.remote_ip)
    then some (record u { remote_ip = ip }, [])
    else if not (port == u.remote_port)
    then forward (record u { remote_port = port }) bytes n
    else forward u bytes n

-- The open callback that start installs.
unfoldable pub on_opened : UdpSession → Bool → List Effect
on_opened u success = send_synack u.session_id success udp_associate ∷ []

-- The write queue callback that start installs.
unfoldable pub on_queue : UdpSession → WriteQueueStatus → List Effect
on_queue u status =
    send_data_ctrl u.session_id (elim status [ danger ↦ pause | safety ↦ receive ]) udp_associate
    ∷ []

-- revP2pData. `parse_v4` is asio::ip::make_address_v4, where none is an exception.
unfoldable pub rev_p2p_data :
    (List ℕ → Option (List ℕ)) → UdpSession → List ℕ → Option (List Effect)
rev_p2p_data parse_v4 u payload =
    let r = decode_udp_payload payload (record { host = []; port = 0; payload = [] }) in
    let m = r.datagram in
    if not r.filled then some [] else (do
      address ← parse_v4 m.host
      some (
          socket_send
            (0x00 ∷ 0x00 ∷ 0x00 ∷ 0x01 ∷ address
              ++ (m.port / 2 ^ 8 % 256 ∷ m.port % 256 ∷ m.payload))
            u.remote_ip u.remote_port
          ∷ []))

-- UdpSession::p2p_data_ctrl.
unfoldable pub udp_data_ctrl : CtrlType → List Effect
udp_data_ctrl pause = socket_stop_reading ∷ []
udp_data_ctrl receive = socket_start_reading ∷ []
udp_data_ctrl _ = []

-- UdpSession::close; `open_socket` is whether socket_ is not null.
unfoldable pub close_udp_session : Bool → List Effect
close_udp_session open_socket = if open_socket then socket_close ∷ [] else []
