-- ===== src/Mux/Interleaving.antt =====
-- A SessionMux while sessions of several streams are created, given their callbacks and removed,
-- and frames arrive, in any order.
pub mod Apart
use mathlib.Core.Option
use rtcvpn.Common.{
  ℕ, ◌≡◌, ◌∙◌, refl, sym, ap, arith, List, [], ◌∷◌, ◌++◌, Bool, true, false, Option, none, some,
  ◌==◌, if◌then◌else◌, drop, Bool-cases, Option-cases, inl, inr,
}
use rtcvpn.Protocol.Types.{FrameType, syn}
use rtcvpn.Protocol.Frame.{FrameHeader, header_size, decode}
use rtcvpn.Mux.{SessionMux, Call, dispatch, on_p2p_data, create_session, remove_session}
use rtcvpn.Mux.Manager.{
  Session, SessionManager, new_session, set_on_data, set_on_synack, set_on_close, set_on_data_ctrl,
  find_session, update_session, session_of,
}
use rtcvpn.Mux.Manager.Sessions.{
  IsWellFormed, create_session-IsWellFormed, remove_session-IsWellFormed,
  update_session-IsWellFormed, session_of-create_session, session_of-remove_session,
  session_of-update_session, session_of-absent,
}

-- The callbacks of a session.
pub data Setter : Type 0 where
  data_setter synack_setter close_setter data_ctrl_setter : ℕ → Setter

abbrev pub set : Setter → Session → Session
set (data_setter cb) s = set_on_data cb s
set (synack_setter cb) s = set_on_synack cb s
set (close_setter cb) s = set_on_close cb s
set (data_ctrl_setter cb) s = set_on_data_ctrl cb s

-- A callback is installed in the session that find_session gives for the stream id.
pub data Event : Type 0 where
  creates removes : ℕ → Event
  installs : ℕ → Setter → Event
  receives : List ℕ → Event

abbrev install : SessionMux → ℕ → Setter → SessionMux
install m sid f = elim (find_session m.session_manager sid) [
  | none ↦ m
  | some p ↦ record m { session_manager = update_session m.session_manager p (set f) }
]

unfoldable pub step : Event → SessionMux → SessionMux
step (creates sid) m = (create_session m sid).0
step (removes sid) m = remove_session m sid
step (installs sid f) m = install m sid f
step (receives frame) m = m

unfoldable pub run : List Event → SessionMux → SessionMux
run [] m = m
run (e ∷ es) m = run es (step e m)

-- What is called for an event.
unfoldable pub answer : Event → SessionMux → List (Option Call)
answer (receives frame) m = on_p2p_data m frame ∷ []
answer _ m = []

-- Whether an event is of stream k.
unfoldable pub about : ℕ → Event → Bool
about k (creates sid) = sid == k
about k (removes sid) = sid == k
about k (installs sid _) = sid == k
about k (receives frame) = elim (decode frame) [ none ↦ false | some h ↦ h.stream_id == k ]

unfoldable pub only : ℕ → List Event → List Event
only k [] = []
only k (e ∷ es) = if about k e then e ∷ only k es else only k es

-- What is called for the events of stream k while all of the events happen.
unfoldable pub calls_of : ℕ → List Event → SessionMux → List (Option Call)
calls_of k [] m = []
calls_of k (e ∷ es) m = (if about k e then answer e m else []) ++ calls_of k es (step e m)
