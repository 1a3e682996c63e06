-- ===== src/Mux.antt =====
-- Src/common/include/session_mux.h and Src/common/src/session_mux.cpp. A callback is the number
-- that stands for the callable installed; what the multiplexer calls is a `Call`, and a frame
-- that is only logged and dropped gives none.
pub mod Manager
pub mod Delivery
pub mod Isolation
pub mod Abstract
pub mod Interleaving
mod Tests
use rtcvpn.Common.{
  ℕ, List, [], ◌∷◌, Bool, true, false, ◌&&◌, Option, none, some, leb, ◌==◌, if◌then◌else◌, ◌>>=◌,
  length, get_or, drop,
}
use rtcvpn.Protocol.Types.{
  CtrlType, receive, pause, FrameType, syn, synack, data_frame, fin, data_ctrl, Protocol,
  ctrl_type_of,
}
use rtcvpn.Protocol.Frame.{FrameHeader, header_size, decode, make_frame}
use rtcvpn.Protocol.Syn.{encode_syn_payload, decode_syn_payload}
use Manager
use Manager.{Session, SessionManager, empty_manager, session_of}

pub record SessionMux : Type 0 where
  pub session_manager : SessionManager
  pub send_func : Option ℕ
  pub peer_conn_id : ℕ
  pub on_syn : Option ℕ

unfoldable pub new_mux : ℕ → SessionMux
new_mux peer = record {
  session_manager = empty_manager;
  send_func = none;
  peer_conn_id = peer;
  on_syn = none;
}

abbrev pub set_send_func : SessionMux → ℕ → SessionMux
set_send_func m f = record m { send_func = some f }

abbrev pub set_on_syn : SessionMux → ℕ → SessionMux
set_on_syn m h = record m { on_syn = some h }

-- The session functions of SessionMux.
abbrev pub create_session : SessionMux → ℕ → SessionMux × ℕ
create_session m sid =
    let (manager, p) = Manager.create_session m.session_manager sid in
    (record m { session_manager = manager }, p)

abbrev pub create_session_any : List ℕ → SessionMux → Option (SessionMux × ℕ)
create_session_any draws m = do
  (manager, p) ← Manager.create_session_any draws m.session_manager
  some (record m { session_manager = manager }, p)

abbrev pub register_session : SessionMux → ℕ → SessionMux
register_session m p = record m { session_manager = Manager.register_session m.session_manager p }

abbrev pub remove_session : SessionMux → ℕ → SessionMux
remove_session m sid = record m { session_manager = Manager.remove_session m.session_manager sid }

-- A call of an installed callback, the callback first.
pub data Call : Type 0 where
  syn_call : ℕ → ℕ → List ℕ → ℕ → Protocol → Call
  synack_call : ℕ → Bool → Protocol → Call
  data_call : ℕ → List ℕ → Protocol → Call
  close_call : ℕ → Protocol → Call
  ctrl_call : ℕ → CtrlType → Protocol → Call
  send_call : ℕ → ℕ → List ℕ → Call

-- The cases of the switch in on_p2p_data.
abbrev pub on_syn_frame : SessionMux → FrameHeader → List ℕ → Option Call
on_syn_frame m h payload = do
  (host, port) ← decode_syn_payload payload
  handler ← m.on_syn
  some (syn_call handler h.stream_id host port h.protocol)

abbrev pub on_synack_frame : SessionMux → FrameHeader → List ℕ → Option Call
on_synack_frame m h payload = do
  s ← session_of m.session_manager h.stream_id
  cb ← s.on_synack
  some (synack_call cb (leb 1 (length payload) && get_or payload 0 0 == 0) h.protocol)

abbrev pub on_data_frame : SessionMux → FrameHeader → List ℕ → Option Call
on_data_frame m h payload = do
  s ← session_of m.session_manager h.stream_id
  cb ← s.on_data
  some (data_call cb payload h.protocol)

abbrev pub on_fin_frame : SessionMux → FrameHeader → List ℕ → Option Call
on_fin_frame m h payload = do
  s ← session_of m.session_manager h.stream_id
  cb ← s.on_close
  some (close_call cb h.protocol)

abbrev pub on_data_ctrl_frame : SessionMux → FrameHeader → List ℕ → Option Call
on_data_ctrl_frame m h payload = do
  s ← session_of m.session_manager h.stream_id
  cb ← s.on_data_ctrl
  if leb 1 (length payload)
      then some (ctrl_call cb (ctrl_type_of (get_or payload 0 0)) h.protocol)
      else none

-- `switch (h.type)`.
unfoldable pub dispatch : FrameType → SessionMux → FrameHeader → List ℕ → Option Call
dispatch syn m h payload = on_syn_frame m h payload
dispatch synack m h payload = on_synack_frame m h payload
dispatch data_frame m h payload = on_data_frame m h payload
dispatch fin m h payload = on_fin_frame m h payload
dispatch data_ctrl m h payload = on_data_ctrl_frame m h payload
dispatch (FrameType.raw b) m h payload = none

-- SessionMux::on_p2p_data.
unfoldable pub on_p2p_data : SessionMux → List ℕ → Option Call
unfolding dispatch
on_p2p_data m bytes = do h ← decode bytes; dispatch h.type m h (drop header_size bytes)

-- The tail that the send functions share: `if (send_func_) send_func_(peer_conn_id_, …)`.
abbrev send_frame : SessionMux → List ℕ → Option Call
send_frame m frame = do f ← m.send_func; some (send_call f m.peer_conn_id frame)

unfoldable pub send_syn : SessionMux → ℕ → List ℕ → ℕ → Protocol → Option Call
send_syn m sid host port p = send_frame m (make_frame sid syn p (encode_syn_payload host port))

unfoldable pub send_synack : SessionMux → ℕ → Bool → Protocol → Option Call
send_synack m sid ok p = send_frame m (make_frame sid synack p ((if ok then 0 else 1) ∷ []))

unfoldable pub send_data : SessionMux → ℕ → List ℕ → Protocol → Option Call
send_data m sid payload p = send_frame m (make_frame sid data_frame p payload)

unfoldable pub send_fin : SessionMux → ℕ → Protocol → Option Call
send_fin m sid p = send_frame m (make_frame sid fin p [])

abbrev ctrl_byte : CtrlType → ℕ
ctrl_byte receive = 0
ctrl_byte _ = 1

unfoldable pub send_data_ctrl : SessionMux → ℕ → CtrlType → Protocol → Option Call
send_data_ctrl m sid c p = send_frame m (make_frame sid data_ctrl p (ctrl_byte c ∷ []))
