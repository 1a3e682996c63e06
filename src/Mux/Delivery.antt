-- ===== src/Mux/Delivery.antt =====
-- What the peer's multiplexer calls when it is handed a frame that a send function made.
use mathlib.Core.Option
use rtcvpn.Common.{
  ℕ, ◌^◌, ◌<◌, ◌≡◌, ◌∙◌, arith, List, [], ◌∷◌, none, some, if◌then◌else◌, ◌>>=◌, length, ◌⊎◌, Bool,
}
use rtcvpn.Protocol.Types.{
  CtrlType, receive, pause, FrameType, syn, synack, data_frame, fin, data_ctrl, Protocol,
  ctrl_type_of, IsNamedFrameType, IsNamedProtocol,
}
use rtcvpn.Protocol.Frame.{FrameHeader, header_size, make_frame}
use rtcvpn.Protocol.Frame.RoundTrip.{decode-make_frame, decode-eq-none}
use rtcvpn.Protocol.Syn.{encode_syn_payload}
use rtcvpn.Protocol.Syn.RoundTrip.{decode-encode_syn_payload}
use rtcvpn.Mux.Manager.{Session, session_of}
use rtcvpn.Mux.{
  SessionMux, syn_call, synack_call, data_call, close_call, ctrl_call, send_call, dispatch,
  on_p2p_data, send_syn, send_synack, send_data, send_fin, send_data_ctrl, ctrl_byte,
}

abbrev header : ℕ → FrameType → Protocol → FrameHeader
header sid t p = record { stream_id = sid; type = t; protocol = p }

-- A well-formed frame goes to the case of its type, with its header and its payload.
pub on_p2p_data-make_frame :
    (m : SessionMux) (sid : ℕ) (t : FrameType) (p : Protocol) (payload : List ℕ)
    → sid < 2 ^ 32
    → IsNamedFrameType t
    → IsNamedProtocol p
    → on_p2p_data m (make_frame sid t p payload)
      ≡ dispatch t m (record { stream_id = sid; type = t; protocol = p }) payload
unfolding on_p2p_data
on_p2p_data-make_frame m sid t p payload small named named' =
    let (head, rest) =
      decode-make_frame (header sid t p) payload
        (record { sid = small; named_type = named; named_protocol = named' }) in
    rw (head, on_p2p_data, rest)

-- Bytes that are no frame call nothing.
pub on_p2p_data_short :
    (m : SessionMux) (bytes : List ℕ) → length bytes < header_size → on_p2p_data m bytes ≡ none
unfolding on_p2p_data
on_p2p_data_short m bytes h = rw (decode-eq-none bytes h, on_p2p_data)

-- The frame that a send function hands to the send callback.
sent_frame :
    (m : SessionMux) (made : List ℕ) {f conn : ℕ} {frame : List ℕ}
    → (m.send_func >>= λ g. some (send_call g m.peer_conn_id made)) ≡ some (send_call f conn frame)
    → frame ≡ made
sent_frame m made e = ground arith

module _ (a b : SessionMux) (sid : ℕ) (p : Protocol) (s : Session) {f conn : ℕ} {frame : List ℕ}
    (small : sid < 2 ^ 32) (named : IsNamedProtocol p)
    (found : session_of b.session_manager sid ≡ some s) where
  -- For a 32-bit stream id and a named protocol, the frame that send_data hands to the send
  -- function makes a peer that has a session of that stream id call that session's data callback
  -- with the same payload, or nothing if none is installed.
  pub send_data-on_p2p_data :
      (payload : List ℕ)
      → send_data a sid payload p ≡ some (send_call f conn frame)
      → on_p2p_data b frame ≡ Option.map (λ cb. data_call cb payload p) s.on_data
  unfolding send_data dispatch
  send_data-on_p2p_data payload sent =
      rw (sent_frame a _ sent)
        (on_p2p_data-make_frame b sid data_frame p payload small tt named ∙ ground arith)

  -- A SYNACK arrives with the same outcome.
  pub send_synack-on_p2p_data :
      (ok : Bool)
      → send_synack a sid ok p ≡ some (send_call f conn frame)
      → on_p2p_data b frame ≡ Option.map (λ cb. synack_call cb ok p) s.on_synack
  unfolding send_synack dispatch
  send_synack-on_p2p_data ok sent = rw (sent_frame a _ sent) (
      on_p2p_data-make_frame b sid synack p ((if ok then 0 else 1) ∷ []) small tt named
      ∙ ground arith)

  pub send_fin-on_p2p_data :
      send_fin a sid p ≡ some (send_call f conn frame)
      → on_p2p_data b frame ≡ Option.map (λ cb. close_call cb p) s.on_close
  unfolding send_fin dispatch
  send_fin-on_p2p_data sent =
      rw (sent_frame a _ sent) (on_p2p_data-make_frame b sid fin p [] small tt named ∙ ground arith)

  pub send_data_ctrl-on_p2p_data :
      (c : CtrlType)
      → (c ≡ receive) ⊎ (c ≡ pause)
      → send_data_ctrl a sid c p ≡ some (send_call f conn frame)
      → on_p2p_data b frame ≡ Option.map (λ cb. ctrl_call cb c p) s.on_data_ctrl
  unfolding send_data_ctrl dispatch ctrl_type_of
  send_data_ctrl-on_p2p_data c two sent =
      rw (sent_frame a _ sent)
        (on_p2p_data-make_frame b sid data_ctrl p (ctrl_byte c ∷ []) small tt named ∙ ground arith)

-- For a 32-bit stream id, a named protocol, a host of at most 255 bytes and a 16-bit port, the
-- frame that send_syn hands to the send function makes the peer call its SYN handler with that
-- stream id, host and port, or nothing if none is installed, whether or not the peer has a session
-- of that stream id.
pub send_syn-on_p2p_data :
    (a b : SessionMux) (sid : ℕ) (host : List ℕ) (port : ℕ) (p : Protocol) {f conn : ℕ}
    {frame : List ℕ}
    → sid < 2 ^ 32
    → IsNamedProtocol p
    → length host < 256
    → port < 2 ^ 16
    → send_syn a sid host port p ≡ some (send_call f conn frame)
    → on_p2p_data b frame ≡ Option.map (λ h. syn_call h sid host port p) b.on_syn
unfolding send_syn dispatch
send_syn-on_p2p_data a b sid host port p small named h q sent = rw (sent_frame a _ sent) (
    on_p2p_data-make_frame b sid syn p (encode_syn_payload host port) small tt named
    ∙ ground (arith, decode-encode_syn_payload host port h q))
