-- ===== src/App/Tunnel.antt =====
-- Data from the browser's connection to the target and back, over the data channel.
use rtcvpn.Common.{
  ℕ, ◌+◌, ◌^◌, ◌<◌, ◌≡◌, ◌∙◌, refl, ap, arith, List, [], ◌∷◌, true, some, ◌&&◌, length, take,
}
use rtcvpn.Protocol.Types.{Protocol, connected, data_frame}
use rtcvpn.Protocol.Frame.{make_frame}
use rtcvpn.Protocol.Frame.RoundTrip.{make_frame_bytes}
use rtcvpn.Mux.Manager.{Session, session_of}
use rtcvpn.Mux.{SessionMux, data_call, send_call, on_p2p_data}
use rtcvpn.Mux
use rtcvpn.Http.Parser.{Notice}
use rtcvpn.Client.{Socks5Session, tcp_send}
use rtcvpn.Client
use rtcvpn.Client.Handlers.{process_data}
use rtcvpn.Client.Callbacks.{p2p_data}
use rtcvpn.Server.{TunnelSession, tcp, send_data, target_send, on_data, p2p_rev_data}
use rtcvpn.Server.Closing.{IsOpen}
use rtcvpn.Server.Transport.{
  IsTcp, browser_data, target_data, IsTcp-IsNamedProtocol, data_frame_sent, delivered, returned,
}
use rtcvpn.P2p.{Controller, dc_send}
use rtcvpn.P2p.Library.{Answers}
use rtcvpn.App.{send_out, receive}
use rtcvpn.App.Pipe.{pipe_transparent}

module _ (a b : SessionMux) (sid f cb : ℕ) (ses : Session) (p : Protocol) (c : Controller)
    (answers : Answers) (payload : List ℕ) (small : sid < 2 ^ 32) (kind : IsTcp p)
    (up : a.send_func ≡ some f) (found : session_of b.session_manager sid ≡ some ses)
    (listens : ses.on_data ≡ some cb) (channel : c.dc && answers.dc_is_open ≡ true)
    (fits : length payload + 6 < 2 ^ 32) where
  length-data_frame : length (make_frame sid data_frame p payload) ≡ length payload + 6
  length-data_frame = ap length (make_frame_bytes sid data_frame p payload) ∙ omega arith

  -- A payload that one end sends is one message on the channel, and the other end's multiplexer
  -- calls the data callback of the stream with it.
  pub carried :
      (frame : List ℕ) × (message : List ℕ) × (Mux.send_data a sid payload p
        ≡ some (send_call f a.peer_conn_id frame))
      × (send_out answers frame c ≡ dc_send message ∷ [])
      × (receive b message ≡ some (data_call cb payload p))
  carried =
      let frame = make_frame sid data_frame p payload in
      let short : length frame < 2 ^ 32 = omega (arith, length-data_frame) in
      let (message, sent, through) = (pipe_transparent answers c frame).0 short channel in
      (
        frame,
        message,
        data_frame_sent a sid payload p f up,
        sent,
        through b
            ∙ delivered a b sid f cb ses p small (IsTcp-IsNamedProtocol p kind) up found listens
                payload,
      )

-- For a client session that is connected with protocol Socks5Connect or HttpsConnect on a 32-bit
-- stream id, a multiplexer with a send function, a data channel that is there and open, a server
-- whose multiplexer has a data callback for that stream, and an open TCP tunnel there: what is
-- received from the browser, of less than 2^32 - 6 bytes, makes one frame and one message on the
-- channel; on that message the server's multiplexer calls the data callback with the same bytes,
-- and the tunnel sends them to the target.
pub browser_reaches_target :
    (s : Socks5Session) (t : TunnelSession) (a b : SessionMux) (ses : Session) (c : Controller)
    (answers : Answers) (sid f cb fresh len garbage : ℕ) (notices : List (Notice × ℕ))
    (bytes : List ℕ) (p : Protocol)
    → s.phase ≡ connected
    → s.protocol ≡ p
    → s.session ≡ some sid
    → IsTcp p
    → sid < 2 ^ 32
    → length (take len bytes) + 6 < 2 ^ 32
    → a.send_func ≡ some f
    → c.dc && answers.dc_is_open ≡ true
    → session_of b.session_manager sid ≡ some ses
    → ses.on_data ≡ some cb
    → IsOpen t tcp
    → let payload = take len bytes in
      (process_data fresh notices bytes len s ≡ some (tt, s, Client.send_data sid payload p ∷ []))
      × ((frame : List ℕ) × (message : List ℕ) × (Mux.send_data a sid payload p
            ≡ some (send_call f a.peer_conn_id frame))
          × (send_out answers frame c ≡ dc_send message ∷ [])
          × (receive b message ≡ some (data_call cb payload p)))
      × (p2p_rev_data garbage payload p t ≡ some (t, target_send payload ∷ []))
browser_reaches_target s t a b ses c answers sid f cb fresh len garbage notices bytes p ph pr
      open_session kind small fits up channel found listens o =
    (
      browser_data s sid fresh len notices bytes p ph pr open_session kind,
      carried a b sid f cb ses p c answers (take len bytes) small kind up found listens channel
          fits,
      target_data t garbage (take len bytes) p o kind,
    )

-- For a tunnel with protocol Socks5Connect or HttpsConnect on a 32-bit stream id, a multiplexer
-- with a send function, a data channel that is there and open, a client whose multiplexer has a
-- data callback for that stream, and a browser socket that is still there: what is received from
-- the target, of less than 2^32 - 6 bytes, makes one frame and one message on the channel; on that
-- message the client's multiplexer calls the data callback with the same bytes, and p2p_data sends
-- them to the browser.
pub target_reaches_browser :
    (s : Socks5Session) (t : TunnelSession) (a b : SessionMux) (ses : Session) (c : Controller)
    (answers : Answers) (f cb : ℕ) (bytes : List ℕ)
    → IsTcp t.protocol
    → t.stream_id < 2 ^ 32
    → length bytes + 6 < 2 ^ 32
    → b.send_func ≡ some f
    → c.dc && answers.dc_is_open ≡ true
    → session_of a.session_manager t.stream_id ≡ some ses
    → ses.on_data ≡ some cb
    → s.tcp_socket ≡ true
    → (on_data bytes t ≡ send_data t.stream_id bytes t.protocol ∷ [])
      × ((frame : List ℕ) × (message : List ℕ) × (Mux.send_data b t.stream_id bytes t.protocol
            ≡ some (send_call f b.peer_conn_id frame))
          × (send_out answers frame c ≡ dc_send message ∷ [])
          × (receive a message ≡ some (data_call cb bytes t.protocol)))
      × (p2p_data bytes t.protocol s ≡ some (tt, s, tcp_send bytes ∷ []))
unfolding on_data
target_reaches_browser s t a b ses c answers f cb bytes kind small fits up channel found listens
      alive =
    (
      refl,
      carried b a t.stream_id f cb ses t.protocol c answers bytes small kind up found listens
          channel fits,
      returned s bytes t.protocol alive kind,
    )
