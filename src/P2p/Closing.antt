-- ===== src/P2p/Closing.antt =====
-- How the owner learns of a close, and messages that are not what they should be.
use rtcvpn.Common.{ℕ, ◌≡◌, List, [], ◌∷◌, ◌++◌, true, Option, if◌then◌else◌, arith}
use rtcvpn.P2p.{
  Controller, peer_failed, peer_closed, ws_close, dc_close, pc_close, call_state, closed,
}
use rtcvpn.P2p.Library.{Json, Answers}
use rtcvpn.P2p.Events.{ws_closed, peer_state, step, run}

-- For a controller with a WebSocket, a peer connection and a state callback: if the peer
-- connection fails and then the WebSocket, which the controller closes, is closed, the callback is
-- told of the close twice. If the peers are connected and the WebSocket is closed first, the
-- controller closes the peer connection all the same, and the callback is told once.
pub failure_told_twice :
    (dump : Json → List ℕ) (parse : List ℕ → Option Json) (a b : Answers) (c : Controller)
    → c.ws ≡ true
    → c.pc ≡ true
    → c.state_change_callback ≡ true
    → let channel = if c.dc then dc_close ∷ [] else [] in
      ((run dump parse ((a, peer_state peer_failed) ∷ (b, ws_closed) ∷ []) c).1
        ≡ call_state closed ∷ ws_close ∷ (channel ++ pc_close ∷ []) ++ call_state closed ∷ [])
      × (c.p2p_connected ≡ true
          → (run dump parse ((a, ws_closed) ∷ (b, peer_state peer_closed) ∷ []) c).1
            ≡ (channel ++ pc_close ∷ []) ++ call_state closed ∷ ws_close ∷ [])
unfolding run step
failure_told_twice dump parse a b c w p s = ground arith
