-- ===== src/Client/Udp/Stream.antt =====
-- The stream that UdpSession::send_ipv4 and UdpSession::send_domain send on.
use rtcvpn.Common.{
  ℕ, ◌^◌, ◌<◌, ◌≡◌, ◌≢◌, refl, ◌∙◌, arith, List, [], ◌∷◌, Option, none, some, All, some_inj,
}
use mathlib.Core.Path.{subst}
use rtcvpn.Protocol.Types.{udp_associate, data_frame}
use rtcvpn.Protocol.Frame.{make_frame}
use rtcvpn.Mux.Manager.{session_of}
use rtcvpn.Mux.Manager.Sessions.{IsWellFormed, session_of-create_session}
use rtcvpn.Mux.{SessionMux, create_session, dispatch, on_p2p_data}
use rtcvpn.Mux.Delivery.{on_p2p_data-make_frame, on_p2p_data_short}
use rtcvpn.Client.Udp.{
  UdpSession, Effect, send_data, send_p2p_data, send_ipv4, send_domain, send_named,
}

-- A DATA frame of a UDP association on the stream `sid`.
abbrev OnStream : ℕ → Effect → Type 0
OnStream sid (send_data j _ p) = (j ≡ sid) × (p ≡ udp_associate)
OnStream sid _ = Unit {0}

abbrev OnStreams : ℕ → Option (List Effect) → Type 0
OnStreams sid none = Unit {0}
OnStreams sid (some es) = All (OnStream sid) es

send_p2p_data-OnStreams :
    (u : UdpSession) (bytes : List ℕ) (n : ℕ) → OnStreams u.session_id (send_p2p_data u bytes n)
unfolding send_p2p_data send_ipv4 send_domain send_named
send_p2p_data-OnStreams u bytes n = ground arith

-- The frame of an effect.
abbrev pub frame_of : Effect → List ℕ
frame_of (send_data sid payload p) = make_frame sid data_frame p payload
frame_of _ = []

module _ (b : SessionMux) (sid : ℕ) (small : sid < 2 ^ 32)
    (absent : session_of b.session_manager sid ≡ none) where
  silent : (e : Effect) → OnStream sid e → on_p2p_data b (frame_of e) ≡ none
  unfolding dispatch
  silent (send_data j payload p) (same, udp) =
      rw (same, udp)
        (on_p2p_data-make_frame b sid data_frame udp_associate payload small tt tt ∙ rw absent refl)
  silent _ on = on_p2p_data_short b [] (omega arith)

  frames_silent :
      (es : List Effect) → All (OnStream sid) es → All (λ e. on_p2p_data b (frame_of e) ≡ none) es
  frames_silent [] on = tt
  frames_silent (e ∷ es) (here, later) = (silent e here, frames_silent es later)

-- If a peer in a well-formed state has no session under the id of the browser session, a 32-bit
-- word, and then creates one under another id, no frame that send_p2p_data leads to calls anything
-- there.
pub udp_data_unheard :
    (b : SessionMux) (u : UdpSession) (fresh n : ℕ) (bytes : List ℕ) (es : List Effect)
    → IsWellFormed b.session_manager
    → session_of b.session_manager u.session_id ≡ none
    → fresh ≢ u.session_id
    → u.session_id < 2 ^ 32
    → send_p2p_data u bytes n ≡ some es
    → All (λ e. on_p2p_data (create_session b fresh).0 (frame_of e) ≡ none) es
udp_data_unheard b u fresh n bytes es w absent other small made =
    frames_silent (create_session b fresh).0 u.session_id small
      (session_of-create_session b.session_manager fresh u.session_id w ∙ ground arith) es
      (on_streams (send_p2p_data u bytes n) made (send_p2p_data-OnStreams u bytes n))
  where
    on_streams :
        (o : Option (List Effect))
        → o ≡ some es
        → OnStreams u.session_id o
        → All (OnStream u.session_id) es
    on_streams none e on = cc
    on_streams (some fs) e on = subst (All (OnStream u.session_id)) (some_inj e) on
