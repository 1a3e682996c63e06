-- ===== src/Mux/Isolation.antt =====
-- SessionMux::create_session and remove_session against the frames of every stream id.
use rtcvpn.Common.{
  ℕ, ◌≡◌, arith, List, none, some, ◌==◌, if◌then◌else◌, Bool, true, false, ◌&&◌, drop,
}
use rtcvpn.Protocol.Types.{FrameType, syn}
use rtcvpn.Protocol.Frame.{FrameHeader, header_size, decode}
use rtcvpn.Mux.Manager.Sessions.{IsWellFormed, session_of-remove_session, session_of-create_session}
use rtcvpn.Mux.{SessionMux, dispatch, on_p2p_data, create_session, remove_session}

-- Every type but SYN is handed to a session.
abbrev pub needs_session : FrameType → Bool
needs_session syn = false
needs_session _ = true

dispatch-remove_session :
    (m : SessionMux) (sid : ℕ) (t : FrameType) (h : FrameHeader) (payload : List ℕ)
    → dispatch t (remove_session m sid) h payload
      ≡ (if sid == h.stream_id && needs_session t then none else dispatch t m h payload)
unfolding dispatch
dispatch-remove_session m sid syn h payload = ground arith
dispatch-remove_session m sid t h payload =
    ground (arith, session_of-remove_session m.session_manager sid h.stream_id)

-- After remove_session a frame of that stream id calls nothing unless it is a SYN; every other
-- frame calls what it called before.
pub on_p2p_data-remove_session :
    (m : SessionMux) (sid : ℕ) (bytes : List ℕ) (h : FrameHeader)
    → decode bytes ≡ some h
    → on_p2p_data (remove_session m sid) bytes
      ≡ (if sid == h.stream_id && needs_session h.type then none else on_p2p_data m bytes)
unfolding on_p2p_data
on_p2p_data-remove_session m sid bytes h e =
    rw (e, on_p2p_data) (dispatch-remove_session m sid h.type h (drop header_size bytes))

dispatch-create_session :
    (m : SessionMux) (sid : ℕ) (t : FrameType) (h : FrameHeader) (payload : List ℕ)
    → IsWellFormed m.session_manager
    → dispatch t (create_session m sid).0 h payload
      ≡ (if sid == h.stream_id && needs_session t then none else dispatch t m h payload)
unfolding dispatch
dispatch-create_session m sid syn h payload w = ground arith
dispatch-create_session m sid t h payload w =
    ground (arith, session_of-create_session m.session_manager sid h.stream_id w)

-- In a well-formed multiplexer that has just created a session, a frame of that stream id calls
-- nothing unless it is a SYN, also where an older session of that id was replaced; every other
-- frame calls what it called before.
pub on_p2p_data-create_session :
    (m : SessionMux) (sid : ℕ) (bytes : List ℕ) (h : FrameHeader)
    → IsWellFormed m.session_manager
    → decode bytes ≡ some h
    → on_p2p_data (create_session m sid).0 bytes
      ≡ (if sid == h.stream_id && needs_session h.type then none else on_p2p_data m bytes)
unfolding on_p2p_data
on_p2p_data-create_session m sid bytes h w e =
    rw (e, on_p2p_data) (dispatch-create_session m sid h.type h (drop header_size bytes) w)
