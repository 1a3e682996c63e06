-- ===== src/P2p/Events.antt =====
-- Everything that can happen to a controller, in any order.
use rtcvpn.Common.{ℕ, List, [], ◌∷◌, ◌++◌, Bool, false, Option, none, some, if◌then◌else◌, codes}
use rtcvpn.P2p
use rtcvpn.P2p.{Controller, Effect, PeerState, Result}
use rtcvpn.P2p.Library.{Json, get, is_text, Answers}

-- A callback of the library, or a call of the owner.
pub data Event : Type 0 where
  ws_opened ws_closed : Event
  text_received : List ℕ → Event
  peer_state : PeerState → Event
  local_candidate : List ℕ → List ℕ → Event
  local_description : List ℕ → Event
  data_channel : Event
  binary_received : List ℕ → Event
  send : List ℕ → Event
  disconnect : Event

-- The controller behind a handler; one that throws has not changed it and has had no effect.
abbrev pub after : Controller → Result → Controller × List Effect
after c none = (c, [])
after c (some r) = r

module _ (dump : Json → List ℕ) (parse : List ℕ → Option Json) where
  -- The callbacks of a peer connection or a data channel come only while there is one; otherwise
  -- nothing happens.
  unfoldable pub step : Answers → Event → Controller → Result
  unfolding P2p.on_text
  step a ws_opened c = some (c, P2p.on_ws_open dump a c)
  step a ws_closed c = some (c, P2p.on_ws_closed c)
  step a (text_received message) c = P2p.on_text dump parse a message c
  step a (peer_state s) c = if c.pc then some (P2p.on_peer_state s c) else some (c, [])
  step a (local_candidate candidate mid) c =
      if c.pc then some (c, P2p.on_local_candidate dump a candidate mid c) else some (c, [])
  step a (local_description description) c =
      if c.pc then some (c, P2p.on_local_description dump a description c) else some (c, [])
  step a data_channel c = if c.pc then some (P2p.on_data_channel c) else some (c, [])
  step a (binary_received bytes) c = if c.dc then some (c, P2p.on_binary bytes c) else some (c, [])
  step a (send bytes) c = some (c, P2p.send a bytes c)
  step a disconnect c = some (c, P2p.disconnect c)

  -- The controller and all effects after some events.
  unfoldable pub run : List (Answers × Event) → Controller → Controller × List Effect
  run [] c = (c, [])
  run ((a, e) ∷ es) c =
      let (d, now) = after c (step a e c) in let (f, later) = run es d in (f, now ++ later)

-- A message that logs in: the password, or an acknowledgement of success.
abbrev pub grants : List ℕ → Json → Bool
grants password msg =
    if is_text (codes "verifyACK") (get (codes "type") msg)
    then is_text (codes "success") (get (codes "result") msg)
    else if is_text (codes "verify") (get (codes "type") msg)
    then is_text password (get (codes "passwd") msg)
    else false

abbrev pub logs_in : (List ℕ → Option Json) → List ℕ → Event → Bool
logs_in parse password (text_received message) = elim (parse message) [
  | none ↦ false
  | some msg ↦ grants password msg
]
logs_in parse password _ = false
