-- ===== src/P2p/Setup.antt =====
-- The state of P2PSessionController (Src/common/include/p2p_session_controller.h) and its parts,
-- their effects, and how the owner sets them up.
use rtcvpn.Common.{ℕ, List, Bool, true, false, Option}

-- The handlers that init installs are always there; ws, pc and dc say whether the pointer is not
-- null, and open_callback whether connect to a URL installed it.
pub record Controller : Type 0 where
  pub ws : Bool
  pub open_callback : Bool
  pub pc : Bool
  pub dc : Bool
  pub data_callback : Bool
  pub password : List ℕ
  pub state_change_callback : Bool
  pub login_success_callback : Bool
  pub p2p_connected : Bool

-- P2PSessionController::State.
pub data State : Type 0 where
  connected closed : State

-- rtc::PeerConnection::State.
pub data PeerState : Type 0 where
  peer_new peer_connecting peer_connected peer_disconnected peer_failed peer_closed : PeerState

-- Calls of the library, and callbacks of the owner.
pub data Effect : Type 0 where
  ws_open : List ℕ → Effect
  ws_send : List ℕ → Effect
  ws_close : Effect
  new_peer_connection : Effect
  new_data_channel : List ℕ → Effect
  bind_data_channel : Effect
  set_remote_description : List ℕ → List ℕ → Effect
  add_remote_candidate : List ℕ → List ℕ → Effect
  pc_close : Effect
  dc_close : Effect
  dc_send : List ℕ → Effect
  call_state : State → Effect
  call_login : Effect
  call_data : List ℕ → Effect

abbrev pub Result : Type 0
Result = Option (Controller × List Effect)

-- The constructor, and init.
abbrev pub init : List ℕ → Controller
init password = record {
  ws = false;
  open_callback = false;
  pc = false;
  dc = false;
  data_callback = false;
  password = password;
  state_change_callback = false;
  login_success_callback = false;
  p2p_connected = false;
}

abbrev pub bind_data_callback : Controller → Controller
bind_data_callback c = record c { data_callback = true }

abbrev pub on_state_change : Controller → Controller
on_state_change c = record c { state_change_callback = true }

abbrev pub on_login_success : Controller → Controller
on_login_success c = record c { login_success_callback = true }
