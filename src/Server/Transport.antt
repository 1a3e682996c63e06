-- ===== src/Server/Transport.antt =====
-- Data through the whole tunnel, from the browser's connection to the target and back.
use rtcvpn.Common.{ℕ, ◌^◌, ◌<◌, ◌≡◌, refl, ap, ◌∙◌, arith, List, [], ◌∷◌, true, some, length, take}
use rtcvpn.Protocol.Types.{
  Protocol, connected, socks5_connect, https_connect, udp_associate, data_frame, IsNamedProtocol,
}
use rtcvpn.Protocol.Frame.{make_frame}
use rtcvpn.Protocol.Udp.{Datagram, encode_udp_payload, decode_udp_payload}
use rtcvpn.Protocol.Udp.RoundTrip.{decode_udp_payload_truncated}
use rtcvpn.Mux.Manager.{Session, session_of}
use rtcvpn.Mux.{SessionMux, Call, data_call, send_call, on_p2p_data}
use rtcvpn.Mux
use rtcvpn.Mux.Delivery.{send_data-on_p2p_data}
use rtcvpn.Http.Parser.{Notice}
use rtcvpn.Client.{Socks5Session, tcp_send}
use rtcvpn.Client
use rtcvpn.Client.Handlers.{process_data}
use rtcvpn.Client.Callbacks.{p2p_data}
use rtcvpn.Server.{
  TunnelSession, tcp, udp, send_data, target_send, target_send_to, on_data, p2p_rev_data,
  rev_p2p_data, udp_rev,
}
use rtcvpn.Server.Closing.{IsOpen}

-- The protocols whose bytes go through unchanged.
abbrev pub IsTcp : Protocol → Type 0
IsTcp socks5_connect = Unit {0}
IsTcp https_connect = Unit {0}
IsTcp _ = ⊥

pub browser_data :
    (s : Socks5Session) (sid fresh len : ℕ) (notices : List (Notice × ℕ)) (bytes : List ℕ)
    (p : Protocol)
    → s.phase ≡ connected
    → s.protocol ≡ p
    → s.session ≡ some sid
    → IsTcp p
    → process_data fresh notices bytes len s
      ≡ some (tt, s, Client.send_data sid (take len bytes) p ∷ [])
unfolding process_data
browser_data s sid fresh len notices bytes socks5_connect ph pr up t = ground arith
browser_data s sid fresh len notices bytes https_connect ph pr up t = ground arith
browser_data s sid fresh len notices bytes _ ph pr up t = absurd t

pub target_data :
    (t : TunnelSession) (garbage : ℕ) (bytes : List ℕ) (p : Protocol)
    → IsOpen t tcp
    → IsTcp p
    → p2p_rev_data garbage bytes p t ≡ some (t, target_send bytes ∷ [])
unfolding p2p_rev_data
target_data t garbage bytes socks5_connect o h = ground arith
target_data t garbage bytes https_connect o h = ground arith
target_data t garbage bytes _ o h = absurd h

pub IsTcp-IsNamedProtocol : (p : Protocol) → IsTcp p → IsNamedProtocol p
IsTcp-IsNamedProtocol socks5_connect h = tt
IsTcp-IsNamedProtocol https_connect h = tt
IsTcp-IsNamedProtocol _ h = absurd h

pub data_frame_sent :
    (a : SessionMux) (sid : ℕ) (payload : List ℕ) (p : Protocol) (f : ℕ)
    → a.send_func ≡ some f
    → Mux.send_data a sid payload p
      ≡ some (send_call f a.peer_conn_id (make_frame sid data_frame p payload))
unfolding Mux.send_data
data_frame_sent a sid payload p f up = rw up refl

-- A frame from one multiplexer to the session of its stream at the other.
module _ (a b : SessionMux) (sid f cb : ℕ) (ses : Session) (p : Protocol) (small : sid < 2 ^ 32)
    (named : IsNamedProtocol p) (up : a.send_func ≡ some f)
    (found : session_of b.session_manager sid ≡ some ses) (listens : ses.on_data ≡ some cb) where
  pub delivered :
      (payload : List ℕ)
      → on_p2p_data b (make_frame sid data_frame p payload) ≡ some (data_call cb payload p)
  delivered payload =
      send_data-on_p2p_data a b sid p ses small named found payload
        (data_frame_sent a sid payload p f up)
      ∙ rw listens refl

-- For a client session that is connected with protocol Socks5Connect or HttpsConnect on a 32-bit
-- stream id, a multiplexer with a send function, a peer whose session of that stream has a data
-- callback, and an open TCP tunnel at the server: the bytes received from the browser make one
-- frame, the peer's multiplexer calls the data callback with those bytes, and the tunnel sends them
-- to the target.
pub browser_to_target :
    (s : Socks5Session) (t : TunnelSession) (a b : SessionMux) (ses : Session)
    (sid f cb fresh len garbage : ℕ) (notices : List (Notice × ℕ)) (bytes : List ℕ) (p : Protocol)
    → s.phase ≡ connected
    → s.protocol ≡ p
    → s.session ≡ some sid
    → IsTcp p
    → sid < 2 ^ 32
    → a.send_func ≡ some f
    → session_of b.session_manager sid ≡ some ses
    → ses.on_data ≡ some cb
    → IsOpen t tcp
    → (frame : List ℕ) × (process_data fresh notices bytes len s
        ≡ some (tt, s, Client.send_data sid (take len bytes) p ∷ []))
      × (Mux.send_data a sid (take len bytes) p ≡ some (send_call f a.peer_conn_id frame))
      × (on_p2p_data b frame ≡ some (data_call cb (take len bytes) p))
      × (p2p_rev_data garbage (take len bytes) p t ≡ some (t, target_send (take len bytes) ∷ []))
browser_to_target s t a b ses sid f cb fresh len garbage notices bytes p ph pr open_session h small
      up found listens o =
    (
      make_frame sid data_frame p (take len bytes),
      browser_data s sid fresh len notices bytes p ph pr open_session h,
      data_frame_sent a sid (take len bytes) p f up,
      delivered a b sid f cb ses p small (IsTcp-IsNamedProtocol p h) up found listens
          (take len bytes),
      target_data t garbage (take len bytes) p o h,
    )

pub returned :
    (s : Socks5Session) (bytes : List ℕ) (p : Protocol)
    → s.tcp_socket ≡ true
    → IsTcp p
    → p2p_data bytes p s ≡ some (tt, s, tcp_send bytes ∷ [])
unfolding p2p_data
returned s bytes socks5_connect alive h = ground arith
returned s bytes https_connect alive h = ground arith
returned s bytes _ alive h = absurd h

-- For a tunnel with protocol Socks5Connect or HttpsConnect on a 32-bit stream id, a multiplexer
-- with a send function, a client whose session of that stream has a data callback, and a browser
-- socket that is still there: the bytes received from the target make one frame, the client's
-- multiplexer calls the data callback with those bytes, and p2p_data sends them to the browser.
pub target_to_browser :
    (s : Socks5Session) (t : TunnelSession) (a b : SessionMux) (ses : Session) (f cb : ℕ)
    (bytes : List ℕ)
    → IsTcp t.protocol
    → t.stream_id < 2 ^ 32
    → b.send_func ≡ some f
    → session_of a.session_manager t.stream_id ≡ some ses
    → ses.on_data ≡ some cb
    → s.tcp_socket ≡ true
    → (frame : List ℕ) × (on_data bytes t ≡ send_data t.stream_id bytes t.protocol ∷ [])
      × (Mux.send_data b t.stream_id bytes t.protocol ≡ some (send_call f b.peer_conn_id frame))
      × (on_p2p_data a frame ≡ some (data_call cb bytes t.protocol))
      × (p2p_data bytes t.protocol s ≡ some (tt, s, tcp_send bytes ∷ []))
unfolding on_data
target_to_browser s t a b ses f cb bytes h small up found listens alive = (
  make_frame t.stream_id data_frame t.protocol bytes,
  refl,
  data_frame_sent b t.stream_id bytes t.protocol f up,
  delivered b a t.stream_id f cb ses t.protocol small (IsTcp-IsNamedProtocol t.protocol h) up found
      listens bytes,
  returned s bytes t.protocol alive h,
)

datagram_sent :
    (t : TunnelSession) (garbage : ℕ) (bytes : List ℕ)
    → IsOpen t udp
    → let m =
        (decode_udp_payload bytes (record { host = []; port = garbage; payload = [] })).datagram in
      p2p_rev_data garbage bytes udp_associate t
      ≡ some (t, target_send_to m.payload m.host m.port ∷ [])
unfolding p2p_rev_data rev_p2p_data udp_rev
datagram_sent t garbage bytes o = ground arith

-- On an open UDP tunnel, a UDP payload for a host of at most 255 bytes and less than 2^32 bytes of
-- data that lost bytes at its end is sent on as an empty datagram to some host and port.
pub truncated_datagram_sent :
    (t : TunnelSession) (garbage : ℕ) (host : List ℕ) (port : ℕ) (payload : List ℕ) (k : ℕ)
    → IsOpen t udp
    → length host < 256
    → length payload < 2 ^ 32
    → k < length (encode_udp_payload host port payload)
    → (to : List ℕ) × (at_port : ℕ) × (p2p_rev_data garbage
          (take k (encode_udp_payload host port payload))
          udp_associate
          t
        ≡ some (t, target_send_to [] to at_port ∷ []))
truncated_datagram_sent t garbage host port payload k o small fits cut =
    let bytes = take k (encode_udp_payload host port payload) in
    let out : Datagram = record { host = []; port = garbage; payload = [] } in
    let m = (decode_udp_payload bytes out).datagram in
    (
      m.host,
      m.port,
      datagram_sent t garbage bytes o
          ∙ ap (λ (l : List ℕ). some (t, target_send_to l m.host m.port ∷ []))
              (decode_udp_payload_truncated host port payload k out small fits cut).1,
    )
