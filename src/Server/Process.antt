-- ===== src/Server/Process.antt =====
-- Src/server/include/process_new_client.h and Src/server/src/process_new_client.cpp: a client's
-- table of tunnels with the timer (Src/common/include/timer.h) that removes the client, and the
-- table of clients. A handler gives none where it follows a null pointer.
pub mod Tunnels
pub mod Life
pub mod Removal
pub mod Reaping
pub mod Tracking
mod Tests
use rtcvpn.Common.{
  ℕ, ◌+◌, List, [], ◌∷◌, ◌++◌, Bool, true, false, Option, none, some, if◌then◌else◌, ◌>>=◌, lookup,
  put, remove, values,
}
use rtcvpn.Protocol.Types.{Protocol}
use rtcvpn.P2p
use rtcvpn.P2p.{Controller, State}
use rtcvpn.Server
use rtcvpn.Server.{TunnelSession}
use rtcvpn.Server.Ids.{create_session_id}

-- The server's Socks5Session: `timer` is whether timer_ is not null, and `waiting` whether it has
-- a wait that was not cancelled.
pub record Socks5Session : Type 0 where
  pub session_id : ℕ
  pub controller : Controller
  pub tunnel_sessions : List (ℕ × TunnelSession)
  pub timer : Bool
  pub waiting : Bool
  pub close_cb : Bool

pub data Effect : Type 0 where
  of_tunnel : Server.Effect → Effect
  start_timer : ℕ → Effect
  call_close : ℕ → Effect

abbrev pub Result : Type 0
Result = Option (Socks5Session × List Effect)

-- The constructor; the controller has its password only behind start.
abbrev pub construct : ℕ → Socks5Session
construct id = record {
  session_id = id;
  controller = P2p.init [];
  tunnel_sessions = [];
  timer = true;
  waiting = false;
  close_cb = false;
}

abbrev pub bind_close_func : Socks5Session → Socks5Session
bind_close_func s = record s { close_cb = true }

-- start with an accepted WebSocket.
abbrev pub start_session : List ℕ → Socks5Session → Socks5Session
start_session password s = record s {
  controller =
      P2p.connect_ws
        (P2p.on_login_success (P2p.on_state_change (P2p.bind_data_callback (P2p.init password))));
}

-- What newClient makes.
abbrev pub new_session : ℕ → List ℕ → Socks5Session
new_session id password = start_session password (bind_close_func (construct id))

abbrev pub of_tunnels : List Server.Effect → List Effect
of_tunnels [] = []
of_tunnels (e ∷ es) = of_tunnel e ∷ of_tunnels es

-- The function given to set_on_syn.
unfoldable pub on_syn : ℕ → List ℕ → ℕ → Protocol → Socks5Session → Result
on_syn sid host port p s = do
  (t, es) ← Server.on_syn sid host port p
  some (record s { tunnel_sessions = put sid t s.tunnel_sessions }, of_tunnels es)

-- The function given to bind_close_func is called for each of a tunnel's effects that is its call.
abbrev pub erase_closed : List Server.Effect → List (ℕ × TunnelSession) → List (ℕ × TunnelSession)
erase_closed [] table = table
erase_closed (Server.call_close sid ∷ es) table = erase_closed es (remove sid table)
erase_closed (_ ∷ es) table = erase_closed es table

abbrev closed_tunnel :
    ℕ → Socks5Session → TunnelSession × List Server.Effect → Socks5Session × List Effect
closed_tunnel sid s (t, es) =
    (record s { tunnel_sessions = erase_closed es (put sid t s.tunnel_sessions) }, of_tunnels es)

-- The target of a tunnel closes.
unfoldable pub on_target_closed : ℕ → Socks5Session → Result
on_target_closed sid s = elim (lookup sid s.tunnel_sessions) [
  | none ↦ some (s, [])
  | some t ↦ some (closed_tunnel sid s (Server.on_target_closed t))
]

-- The peer closes a tunnel.
unfoldable pub on_fin : ℕ → Socks5Session → Result
on_fin sid s = elim (lookup sid s.tunnel_sessions) [
  | none ↦ some (s, [])
  | some t ↦ (do
    (u, es) ← Server.close t
    some (record s { tunnel_sessions = put sid u s.tunnel_sessions }, of_tunnels es))
]

-- The loop that closes all tunnels.
unfoldable pub close_tunnels :
    List (ℕ × TunnelSession) → Option (List (ℕ × TunnelSession) × List Effect)
close_tunnels [] = some ([], [])
close_tunnels ((sid, t) ∷ rest) = do
  (u, es) ← Server.close t
  (table, later) ← close_tunnels rest
  some ((sid, u) ∷ table, of_tunnels es ++ later)

-- notifyClose, with Timer::start, which cancels an older wait.
abbrev pub notify_close : Socks5Session → Result
notify_close s = if s.timer then some (record s { waiting = true }, start_timer 1000 ∷ []) else none

-- The function given to onStateChange.
unfoldable pub on_state : State → Socks5Session → Result
on_state P2p.connected s = some (s, [])
on_state P2p.closed s = do
  (t, now) ← notify_close s
  (table, es) ← close_tunnels t.tunnel_sessions
  some (record t { tunnel_sessions = table }, now ++ es)

-- The function given to bindTimerFinish.
unfoldable pub on_timer : Socks5Session → Result
on_timer s = elim s.tunnel_sessions [
  | [] ↦ some (
    record s { waiting = false; timer = false },
    if s.close_cb then call_close s.session_id ∷ [] else [],
  )
  | _ ∷ _ ↦ if s.timer then some (record s { waiting = true }, start_timer 1000 ∷ []) else none
]

-- ProcessNewWsClient.
pub record ProcessNewWsClient : Type 0 where
  pub client_sessions : List (ℕ × Socks5Session)
  pub id : ℕ
  pub server_password : List ℕ

-- The constructor, of which only the password is used here.
abbrev pub new_process : List ℕ → ProcessNewWsClient
new_process password = record { client_sessions = []; id = 0; server_password = password }

-- newClient.
unfoldable pub new_client : ProcessNewWsClient → ProcessNewWsClient
new_client p =
    let id = create_session_id p.id in
    record p {
      id = id;
      client_sessions = put id (new_session id p.server_password) p.client_sessions;
    }

-- The function given to bindCloseFunc.
unfoldable pub on_client_close : ℕ → ProcessNewWsClient → ProcessNewWsClient
on_client_close id p = record p { client_sessions = remove id p.client_sessions }

-- Socks5Session::stop.
abbrev pub stop_session : Socks5Session → List P2p.Effect
stop_session s = P2p.disconnect s.controller

-- ProcessNewWsClient::stop.
abbrev pub stop_clients : List Socks5Session → List P2p.Effect
stop_clients [] = []
stop_clients (s ∷ rest) = stop_session s ++ stop_clients rest

unfoldable pub stop : ProcessNewWsClient → List P2p.Effect
stop p = stop_clients (values p.client_sessions)
