-- ===== src/App/Ending.antt =====
-- How a connection comes about and how it ends, over the data channel.
mod Tests
use rtcvpn.Common.{
  ℕ, ◌^◌, ◌<◌, ◌≡◌, ◌∙◌, refl, ap, arith, List, [], ◌∷◌, Bool, true, false, some, ◌&&◌, length,
  if◌then◌else◌, ◌++◌,
}
use rtcvpn.Protocol.Types.{
  Protocol, IsNamedProtocol, socks5_connect, connected, closed, fin, synack,
}
use rtcvpn.Protocol.Frame.{make_frame}
use rtcvpn.Protocol.Frame.RoundTrip.{make_frame_bytes}
use rtcvpn.Mux.Manager.{Session, session_of}
use rtcvpn.Mux
use rtcvpn.Mux.{SessionMux, Call, send_call, close_call, synack_call, on_p2p_data}
use rtcvpn.Mux.Delivery.{send_fin-on_p2p_data, send_synack-on_p2p_data}
use rtcvpn.Client
use rtcvpn.Client.Handlers.{socks_reply}
use rtcvpn.Client.{◌>>◌, ◌>>=◌, Socks5Session, tcp_send, tcp_close, call_on_close}
use rtcvpn.Client.Callbacks.{p2p_synack, reply_synack, p2p_close, on_tcp_closed, close_session}
use rtcvpn.Client.Tunnel.{peer_closes_first}
use rtcvpn.Server
use rtcvpn.Server.{TunnelSession, Kind, tcp, on_connected, on_target_closed}
use rtcvpn.Server.Closing.{IsOpen, ended, then_closed, client_closes_first, target_closes_first}
use rtcvpn.P2p.{Controller, dc_send}
use rtcvpn.P2p.Library.{Answers}
use rtcvpn.App.{send_out, receive}
use rtcvpn.App.Pipe.{pipe_transparent}

-- A frame that is sent is one message, on which the other multiplexer makes a call.
abbrev pub Arrives : Controller → Answers → SessionMux → List ℕ → Call → Type 0
Arrives c answers b frame call =
    (message : List ℕ) × (send_out answers frame c ≡ dc_send message ∷ [])
    × (receive b message ≡ some call)

module _ (a b : SessionMux) (sid f : ℕ) (ses : Session) (p : Protocol) (c : Controller)
    (answers : Answers) (small : sid < 2 ^ 32) (named : IsNamedProtocol p)
    (up : a.send_func ≡ some f) (found : session_of b.session_manager sid ≡ some ses)
    (channel : c.dc && answers.dc_is_open ≡ true) where
  make_frame-Arrives :
      (frame : List ℕ) (call : Call)
      → length frame < 2 ^ 32
      → on_p2p_data b frame ≡ some call
      → Arrives c answers b frame call
  make_frame-Arrives frame call short called =
      let (message, sent, through) = (pipe_transparent answers c frame).0 short channel in
      (message, sent, through b ∙ called)

  pub send_fin-Arrives :
      (cb : ℕ)
      → ses.on_close ≡ some cb
      → (frame : List ℕ) × (Mux.send_fin a sid p ≡ some (send_call f a.peer_conn_id frame))
        × Arrives c answers b frame (close_call cb p)
  unfolding Mux.send_fin
  send_fin-Arrives cb listens =
      let frame = make_frame sid fin p [] in
      let sent : Mux.send_fin a sid p ≡ some (send_call f a.peer_conn_id frame) = rw up refl in
      (
        frame,
        sent,
        make_frame-Arrives frame (close_call cb p)
            (omega (arith, ap length (make_frame_bytes sid fin p [])))
            (send_fin-on_p2p_data a b sid p ses small named found sent ∙ rw listens refl),
      )

  pub send_synack-Arrives :
      (ok : Bool) (cb : ℕ)
      → ses.on_synack ≡ some cb
      → (frame : List ℕ) × (Mux.send_synack a sid ok p ≡ some (send_call f a.peer_conn_id frame))
        × Arrives c answers b frame (synack_call cb ok p)
  unfolding Mux.send_synack
  send_synack-Arrives ok cb listens =
      let payload = (if ok then 0 else 1) ∷ [] in
      let frame = make_frame sid synack p payload in
      let sent : Mux.send_synack a sid ok p ≡ some (send_call f a.peer_conn_id frame) =
        rw up refl in
      (
        frame,
        sent,
        make_frame-Arrives frame (synack_call cb ok p)
            (omega (arith, ap length (make_frame_bytes sid synack p payload)))
            (send_synack-on_p2p_data a b sid p ses small named found ok sent ∙ rw listens refl),
      )

socks_outcome :
    (s : Socks5Session) (port : ℕ) (ip : List ℕ) (ok : Bool)
    → s.tcp_socket ≡ true
    → p2p_synack ip port ok socks5_connect s ≡ (
        if ok
        then some (tt, record s { phase = connected }, tcp_send (socks_reply 0x00) ∷ [])
        else some (tt, record s { phase = closed }, tcp_send (socks_reply 0x05) ∷ tcp_close ∷ []))
unfolding p2p_synack reply_synack
socks_outcome s port ip true alive = ground arith
socks_outcome s port ip false alive = ground arith

-- The outcome of the connection to the target of a SOCKS5 tunnel, on a 32-bit stream id, with a
-- multiplexer that has a send function, a data channel that is there and open, a client whose
-- multiplexer has a SYNACK callback for that stream, and a browser socket that is still there: the
-- server sends one frame, which is one message, on which the client's multiplexer calls the SYNACK
-- callback with that outcome. On success the browser gets the SOCKS5 reply of success and the
-- session is connected; on failure it gets that of a refused connection, its session is in phase
-- Closed and its socket is closed.
pub outcome_reaches_browser :
    (s : Socks5Session) (t : TunnelSession) (a b : SessionMux) (ses : Session) (c : Controller)
    (answers : Answers) (f cb port : ℕ) (ip : List ℕ) (ok : Bool)
    → t.protocol ≡ socks5_connect
    → t.stream_id < 2 ^ 32
    → b.send_func ≡ some f
    → c.dc && answers.dc_is_open ≡ true
    → session_of a.session_manager t.stream_id ≡ some ses
    → ses.on_synack ≡ some cb
    → s.tcp_socket ≡ true
    → (on_connected ok t ≡ Server.send_synack t.stream_id ok socks5_connect ∷ [])
      × ((frame : List ℕ) × (Mux.send_synack b t.stream_id ok socks5_connect
            ≡ some (send_call f b.peer_conn_id frame))
          × Arrives c answers a frame (synack_call cb ok socks5_connect))
      × (p2p_synack ip port ok socks5_connect s ≡ (
          if ok
          then some (tt, record s { phase = connected }, tcp_send (socks_reply 0x00) ∷ [])
          else some
              (tt, record s { phase = closed }, tcp_send (socks_reply 0x05) ∷ tcp_close ∷ [])))
unfolding on_connected
outcome_reaches_browser s t a b ses c answers f cb port ip ok pr small up channel found listens
      alive =
    (
      rw pr refl,
      send_synack-Arrives b a t.stream_id f ses socks5_connect c answers small tt up found channel
          ok cb listens,
      socks_outcome s port ip ok alive,
    )

-- A browser that closes its connection, with a session on a 32-bit stream id that neither side has
-- closed, over a multiplexer with a send function and a data channel that is there and open, to a
-- server that has a close callback for that stream and an open tunnel: one FIN is sent and the
-- owner's close callback is called; the FIN is one message, on which the server's multiplexer calls
-- the close callback; the tunnel then closes its target, and when that is closed it sends no FIN
-- back, removes the stream and calls its owner's close function once.
pub browser_close_ends_tunnel :
    (s : Socks5Session) (t : TunnelSession) (k : Kind) (a b : SessionMux) (ses : Session)
    (c : Controller) (answers : Answers) (sid f cb : ℕ)
    → s.session ≡ some sid
    → s.is_p2p_closed ≡ false
    → s.is_closed ≡ false
    → s.on_close ≡ true
    → IsNamedProtocol s.protocol
    → sid < 2 ^ 32
    → a.send_func ≡ some f
    → c.dc && answers.dc_is_open ≡ true
    → session_of b.session_manager sid ≡ some ses
    → ses.on_close ≡ some cb
    → IsOpen t k
    → (on_tcp_closed s
        ≡ some (
          tt,
          record s { is_closed = true; tcp_socket = false },
          Client.send_fin sid s.protocol ∷ call_on_close s.session_id ∷ [],
        ))
      × ((frame : List ℕ) × (Mux.send_fin a sid s.protocol
            ≡ some (send_call f a.peer_conn_id frame))
          × Arrives c answers b frame (close_call cb s.protocol))
      × (then_closed (Server.close t)
          ≡ some (
            ended t true,
            Server.target_close
                ∷ Server.remove_session t.stream_id
                ∷ Server.call_close t.stream_id
                ∷ [],
          ))
unfolding on_tcp_closed close_session
browser_close_ends_tunnel s t k a b ses c answers sid f cb on peer own told named small up channel
      found listens o =
    (
      ground arith,
      send_fin-Arrives a b sid f ses s.protocol c answers small named up found channel cb listens,
      client_closes_first t k o,
    )

-- A target that closes the connection of an open tunnel on a 32-bit stream id, over a multiplexer
-- with a send function and a data channel that is there and open, to a client that has a close
-- callback for that stream: one FIN is sent, the stream is removed and the owner's close function
-- called; the FIN is one message, on which the client's multiplexer calls the close callback; the
-- session then closes the browser's socket, if it is there, and when that is closed it sends no FIN
-- back, and calls its owner's close callback if that is installed and the session was open.
pub target_close_ends_session :
    (s : Socks5Session) (t : TunnelSession) (k : Kind) (a b : SessionMux) (ses : Session)
    (c : Controller) (answers : Answers) (f cb : ℕ)
    → IsNamedProtocol t.protocol
    → t.stream_id < 2 ^ 32
    → b.send_func ≡ some f
    → c.dc && answers.dc_is_open ≡ true
    → session_of a.session_manager t.stream_id ≡ some ses
    → ses.on_close ≡ some cb
    → IsOpen t k
    → (on_target_closed t ≡ (
      ended t false,
      Server.send_fin t.stream_id t.protocol
          ∷ Server.remove_session t.stream_id
          ∷ Server.call_close t.stream_id
          ∷ [],
    ))
      × ((frame : List ℕ) × (Mux.send_fin b t.stream_id t.protocol
            ≡ some (send_call f b.peer_conn_id frame))
          × Arrives c answers a frame (close_call cb t.protocol))
      × ((p2p_close >> on_tcp_closed) s
          ≡ some (
            tt,
            record s { is_p2p_closed = true; is_closed = true; tcp_socket = false },
            (if s.tcp_socket then tcp_close ∷ [] else [])
                ++ (if s.is_closed
                    then []
                    else if s.on_close
                    then call_on_close s.session_id ∷ []
                    else []),
          ))
target_close_ends_session s t k a b ses c answers f cb named small up channel found listens o = (
  (target_closes_first t k o).0,
  send_fin-Arrives b a t.stream_id f ses t.protocol c answers small named up found channel cb
      listens,
  peer_closes_first s,
)
