-- ===== src/P2p.antt =====
-- Src/common/include/p2p_session_controller.h with the parts that it owns:
-- Src/common/src/signaling.cpp and Src/common/src/p2p_client.cpp. A handler is a function from the
-- controller to the new controller and the effects, in order; it gives none where it follows a
-- null pointer or throws an exception that it does not catch.
pub mod Library
pub mod Setup
pub mod Events
pub mod Login
pub mod Closing
mod Tests
use rtcvpn.Common.{
  ℕ, List, [], ◌∷◌, ◌++◌, Bool, true, false, not, ◌&&◌, Option, none, some, if◌then◌else◌, ◌>>=◌,
  codes, same_text,
}
pub use Setup.*
use Library.{Json, Value, text, other, get, set, value_or, is_text, Answers}

-- `if (callback) callback(…)`.
abbrev when : Bool → Effect → List Effect
when b e = if b then e ∷ [] else []

-- One call after another.
abbrev then_do : Controller × List Effect → (Controller → Result) → Result
then_do (c, es) f = do (d, fs) ← f c; some (d, es ++ fs)

-- SignalingClient::disconnect.
abbrev pub disconnect : Controller → List Effect
disconnect c = when c.ws ws_close

-- P2PClient::close.
abbrev pub p2p_close : Controller → List Effect
p2p_close c = when c.dc dc_close ++ when c.pc pc_close

-- connect to a URL, and its handler of onOpen.
abbrev pub connect_url : List ℕ → Controller → Controller × List Effect
connect_url url c = (record c { open_callback = true; ws = true }, ws_open url ∷ [])

-- connect with a WebSocket that the server accepted.
abbrev pub connect_ws : Controller → Controller
connect_ws c = record c { ws = true }

abbrev pub verify_message : List ℕ → Json
verify_message password =
    set (codes "passwd") (text password) (set (codes "type") (text (codes "verify")) [])

abbrev pub ack : List ℕ → List ℕ → Json
ack field result = set field (text result) (set (codes "type") (text (codes "verifyACK")) [])

-- `std::string s = msg[…]` of a field that is there.
abbrev on_candidate : Option Value → Option Value → Controller → Result
on_candidate none _ c = some (c, [])
on_candidate (some _) none c = some (c, [])
on_candidate (some (text candidate)) (some (text mid)) c =
    some (c, when c.pc (add_remote_candidate candidate mid))
on_candidate (some _) (some _) c = none

abbrev on_description : Option Value → Controller → Result
on_description none c = some (c, [])
on_description (some (text sdp)) c =
    some (c, when c.pc (set_remote_description sdp (codes "description")))
on_description (some other) c = none

-- P2PClient::handleSignalMessage.
abbrev pub handle_signal_message : List ℕ → Json → Controller → Result
handle_signal_message type msg c =
    if same_text type (codes "description")
    then on_description (get (codes "description") msg) c
    else if same_text type (codes "candidate")
    then on_candidate (get (codes "candidate") msg) (get (codes "mid") msg) c
    else some (c, [])

-- The handler that init gives to SignalingClient::onClosed.
abbrev pub on_ws_closed : Controller → List Effect
on_ws_closed c =
    p2p_close c
    ++ (if not c.p2p_connected then when c.state_change_callback (call_state closed) else [])

abbrev lost : Controller → Controller × List Effect
lost c = (
  record c { p2p_connected = false },
  when c.state_change_callback (call_state closed) ++ disconnect c,
)

-- The handler that init gives to P2PClient::onStateChange.
abbrev pub on_peer_state : PeerState → Controller → Controller × List Effect
on_peer_state peer_connected c =
    (record c { p2p_connected = true }, when c.state_change_callback (call_state connected))
on_peer_state peer_closed c = lost c
on_peer_state peer_failed c = lost c
on_peer_state _ c = (c, [])

abbrev pub on_data_channel : Controller → Controller × List Effect
on_data_channel c = (record c { dc = true }, bind_data_channel ∷ [])

-- The binary handler of P2PClient::bindDataChannel.
abbrev pub on_binary : List ℕ → Controller → List Effect
on_binary bytes c = when c.data_callback (call_data bytes)

module _ (answers : Answers) where
  -- P2PClient::createPeerConnection; an exception is caught, and leaves pc_ as it was.
  abbrev pub create_peer_connection : Controller → Controller × List Effect
  create_peer_connection c =
      if answers.pc_throws then (c, []) else (record c { pc = true }, new_peer_connection ∷ [])

  -- P2PClient::createDataChannel; an exception is caught, a null pc_ is not.
  abbrev pub create_data_channel : List ℕ → Controller → Result
  create_data_channel label c =
      if not c.pc
      then none
      else if answers.dc_throws
      then some (c, [])
      else some (record c { dc = true }, new_data_channel label ∷ bind_data_channel ∷ [])

  -- P2PClient::send.
  abbrev pub send : List ℕ → Controller → List Effect
  send bytes c = when (c.dc && answers.dc_is_open) (dc_send bytes)

  abbrev pub on_verify_ack : Json → Controller → Result
  on_verify_ack msg c =
      if is_text (codes "success") (get (codes "result") msg)
      then then_do (create_peer_connection c) (create_data_channel (codes "data"))
      else some (c, disconnect c)

module _ (dump : Json → List ℕ) (answers : Answers) where
  -- SignalingClient::send.
  abbrev pub signal : Json → Controller → List Effect
  signal msg c = when (c.ws && answers.ws_is_open) (ws_send (dump msg))

  abbrev pub on_ws_open : Controller → List Effect
  on_ws_open c = if c.open_callback then signal (verify_message c.password) c else []

  abbrev pub accept_login : Controller → Controller × List Effect
  accept_login c =
      let (d, made) = create_peer_connection answers c in
      (
        d,
        made
            ++ when d.login_success_callback call_login
            ++ signal (ack (codes "result") (codes "success")) d,
      )

  abbrev pub on_verify : Json → Controller → Result
  on_verify msg c = elim (get (codes "passwd") msg) [
    | some (text pwd) ↦
        if same_text pwd c.password
        then some (accept_login c)
        else some (c, signal (ack (codes "result") (codes "failed")) c)
    | some other ↦ none
    | none ↦ some (c, signal (ack (codes "status") (codes "failed")) c)
  ]

  -- The handler that init gives to SignalingClient::onMessage.
  abbrev pub on_message : Json → Controller → Result
  on_message msg c = do
    type ← value_or (codes "type") [] msg
    if same_text type (codes "verifyACK")
        then on_verify_ack answers msg c
        else if same_text type (codes "verify")
        then on_verify msg c
        else handle_signal_message type msg c

  -- The handlers that createPeerConnection installs, behind the gathered text.
  abbrev pub on_local_candidate : List ℕ → List ℕ → Controller → List Effect
  on_local_candidate candidate mid c =
      signal
        (set (codes "mid") (text mid) (
          set (codes "candidate") (text candidate)
            (set (codes "type") (text (codes "candidate")) [])))
        c

  abbrev pub on_local_description : List ℕ → Controller → List Effect
  on_local_description description c =
      signal
        (set (codes "description") (text description)
          (set (codes "type") (text (codes "description")) []))
        c

-- The text handler of bindWebSocket.
unfoldable pub on_text :
    (Json → List ℕ) → (List ℕ → Option Json) → Answers → List ℕ → Controller → Result
on_text dump parse answers message c = elim (parse message) [
  | none ↦ some (c, [])
  | some msg ↦ elim (get (codes "type") msg) [
    | none ↦ some (c, [])
    | some _ ↦ on_message dump answers msg c
  ]
]
