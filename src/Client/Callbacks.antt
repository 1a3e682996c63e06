-- ===== src/Client/Callbacks.antt =====
-- Socks5Session: what the tunnel and the TCP socket call back.
use rtcvpn.Common.{
  ℕ, ◌/◌, ◌^◌, ◌%◌, List, [], ◌∷◌, ◌++◌, Bool, true, false, not, none, some, if◌then◌else◌, codes,
}
use rtcvpn.Protocol.Types.{
  Protocol, CtrlType, receive, pause, WriteQueueStatus, danger, safety, connected, closed,
  socks5_connect, http_plain, https_connect, udp_associate,
}
use rtcvpn.Client.{
  Socks5Session, Effect, tcp_send, tcp_close, tcp_start, tcp_start_reading, tcp_stop_reading,
  send_data, send_fin, send_data_ctrl, remove_session, start_udp, udp_receive, udp_data_ctrl,
  close_udp, feed_response, call_on_close, M, ◌>>=◌, ◌>>◌, skip, get, modify, emit, on_tcp,
  on_session,
}
use rtcvpn.Client.Handlers.{set_phase, send_socks_reply, close_if_open}

abbrev line_end : List ℕ
line_end = 13 ∷ 10 ∷ 13 ∷ 10 ∷ []

-- `reply` and `fail_reply`, without the terminating zero.
abbrev pub established : List ℕ
established = codes "HTTP/1.1 200 Connection Established" ++ line_end

abbrev pub bad_gateway : List ℕ
bad_gateway = codes "HTTP/1.1 502 Bad Gateway" ++ line_end

abbrev pub send_each : List (List ℕ) → M (Unit {0})
send_each [] = skip
send_each (buf ∷ bufs) = do
  s ← get
  on_session (λ sid. send_data sid buf s.protocol)
  send_each bufs

unfoldable pub http_connected : Bool → M (Unit {0})
http_connected ok =
    if ok
    then (do s ← get; send_each s.pending_buf; modify (λ t. record t { pending_buf = [] }))
    else on_tcp (tcp_send bad_gateway)

unfoldable pub https_connected : Bool → M (Unit {0})
https_connected ok = on_tcp (tcp_send (if ok then established else bad_gateway))

-- send_udp_reply; the address is given by its four bytes.
abbrev pub udp_reply : List ℕ → ℕ → List ℕ
udp_reply ip port = 0x05 ∷ 0x00 ∷ 0x00 ∷ 0x01 ∷ ip ++ (port / 2 ^ 8 % 256 ∷ port % 256 ∷ [])

-- udp_connected. `ip` and `port` are the local endpoint; UdpSession::start returns true.
unfoldable pub udp_connected : List ℕ → ℕ → Bool → M (Unit {0})
udp_connected ip port ok = if not ok then send_socks_reply 0x07 else (do
  s ← get
  if s.udp_session then skip else (do modify (λ t. record t { udp_session = true }); emit start_udp)
  on_tcp (tcp_send (udp_reply ip port)))

-- The effect on udp_session_, which is a fault if that is null.
abbrev on_udp : Effect → M (Unit {0})
on_udp e s = if s.udp_session then some (tt, s, e ∷ []) else none

unfoldable pub p2p_data : List ℕ → Protocol → M (Unit {0})
p2p_data bytes udp_associate = on_udp (udp_receive bytes)
p2p_data bytes http_plain = emit (feed_response bytes)
p2p_data bytes socks5_connect = on_tcp (tcp_send bytes)
p2p_data bytes https_connect = on_tcp (tcp_send bytes)
p2p_data bytes _ = skip

-- The switch of p2p_synack.
unfoldable pub reply_synack : List ℕ → ℕ → Bool → Protocol → M (Unit {0})
unfolding udp_connected http_connected https_connected
reply_synack ip port ok udp_associate = udp_connected ip port ok
reply_synack ip port ok http_plain = http_connected ok
reply_synack ip port ok socks5_connect = send_socks_reply (if ok then 0x00 else 0x05)
reply_synack ip port ok https_connect = https_connected ok
reply_synack ip port ok _ = skip

unfoldable pub p2p_synack : List ℕ → ℕ → Bool → Protocol → M (Unit {0})
unfolding reply_synack
p2p_synack ip port ok p = do
  reply_synack ip port ok p
  if ok then set_phase connected else (do set_phase closed; on_tcp tcp_close)

unfoldable pub p2p_close : M (Unit {0})
p2p_close = do modify (λ s. record s { is_p2p_closed = true }); close_if_open

abbrev tcp_data_ctrl : CtrlType → M (Unit {0})
tcp_data_ctrl pause = on_tcp tcp_stop_reading
tcp_data_ctrl receive = on_tcp tcp_start_reading
tcp_data_ctrl _ = skip

unfoldable pub p2p_data_ctrl : CtrlType → Protocol → M (Unit {0})
p2p_data_ctrl c udp_associate = on_udp (udp_data_ctrl c)
p2p_data_ctrl c http_plain = tcp_data_ctrl c
p2p_data_ctrl c socks5_connect = tcp_data_ctrl c
p2p_data_ctrl c https_connect = tcp_data_ctrl c
p2p_data_ctrl c _ = skip

-- Socks5Session::close.
unfoldable pub close : M (Unit {0})
close = close_if_open

unfoldable pub close_session : M (Unit {0})
close_session = do
  s ← get
  if s.is_p2p_closed
      then skip
      else elim s.session [ none ↦ skip | some sid ↦ emit (send_fin sid s.protocol) ]
  if s.is_closed then skip else (do
    modify (λ t. record t { is_closed = true })
    if s.on_close then emit (call_on_close s.session_id) else skip)

-- The close callback that start installs.
unfoldable pub on_tcp_closed : M (Unit {0})
unfolding close_session
on_tcp_closed = do close_session; modify (λ s. record s { tcp_socket = false })

-- The write queue callback that start installs.
unfoldable pub on_write_queue : WriteQueueStatus → M (Unit {0})
on_write_queue status = do
  s ← get
  on_session
      (λ sid. send_data_ctrl sid (elim status [ danger ↦ pause | safety ↦ receive ]) s.protocol)

-- start, behind the installation of the callbacks.
unfoldable pub start : M (Unit {0})
start = on_tcp tcp_start

-- Socks5Session::set_on_close, with a function or with nullptr.
abbrev pub set_on_close : Bool → M (Unit {0})
set_on_close bound = modify (λ s. record s { on_close = bound })

-- The destructor.
unfoldable pub destroy : Socks5Session → List Effect
destroy s =
    (if s.udp_session then close_udp ∷ [] else [])
    ++ elim s.session [ none ↦ [] | some sid ↦ remove_session sid ∷ [] ]
