-- ===== src/TcpSocket/World.antt =====
-- The socket with the operations that are outstanding on it, and every order of events.
use rtcvpn.Common.{ℕ, ◌+◌, ◌-◌, List, [], ◌∷◌, ◌++◌, Bool, ltb, if◌then◌else◌}
use rtcvpn.TcpSocket.{
  TcpSocket, Effect, async_resolve, async_connect, async_write, async_read, call_close, on_connect,
  on_resolved, on_connected, on_start, on_send, on_close, on_start_reading, on_stop_reading,
  on_written, on_read, drops,
}

-- A call of the socket's owner, or the completion of an outstanding operation.
pub data Event : Type 0 where
  connect : List ℕ → ℕ → Event
  start close start_reading stop_reading : Event
  send : List ℕ → Event
  resolved : Bool → Event
  connected : Bool → Bool → Event
  written : Bool → Event
  read : Bool → List ℕ → Event

-- `resolves`, `connects`, `writes` and `reads` count what is outstanding; `accepted` are the
-- buffers that send queued and `sent` those whose write succeeded, oldest first; `trace` are all
-- effects so far.
pub record World : Type 0 where
  pub socket : TcpSocket
  pub resolves : ℕ
  pub connects : ℕ
  pub writes : ℕ
  pub reads : ℕ
  pub accepted : List (List ℕ)
  pub sent : List (List ℕ)
  pub trace : List Effect

abbrev pub initial : TcpSocket → World
initial s = record {
  socket = s;
  resolves = 0;
  connects = 0;
  writes = 0;
  reads = 0;
  accepted = [];
  sent = [];
  trace = [];
}

abbrev pub is_resolve : Effect → ℕ
is_resolve (async_resolve _ _) = 1
is_resolve _ = 0

abbrev pub is_connect : Effect → ℕ
is_connect async_connect = 1
is_connect _ = 0

abbrev pub is_write : Effect → ℕ
is_write (async_write _) = 1
is_write _ = 0

abbrev pub is_read : Effect → ℕ
is_read async_read = 1
is_read _ = 0

abbrev pub is_call_close : Effect → ℕ
is_call_close call_close = 1
is_call_close _ = 0

abbrev pub count : (Effect → ℕ) → List Effect → ℕ
count p [] = 0
count p (e ∷ es) = p e + count p es

-- The buffers handed to async_write, oldest first.
abbrev pub started : List Effect → List (List ℕ)
started [] = []
started (async_write b ∷ es) = b ∷ started es
started (_ ∷ es) = started es

abbrev pub front : List (List ℕ) → List (List ℕ)
front [] = []
front (b ∷ _) = b ∷ []

-- A handler has run: its effects are recorded and its operations are outstanding.
abbrev pub fire : World → TcpSocket × List Effect → World
fire w (s, effects) = record w {
  socket = s;
  resolves = w.resolves + count is_resolve effects;
  connects = w.connects + count is_connect effects;
  writes = w.writes + count is_write effects;
  reads = w.reads + count is_read effects;
  trace = w.trace ++ effects;
}

-- A completion arrives only for an operation that is outstanding; otherwise nothing happens.
unfoldable pub step : World → Event → World
unfolding on_connect on_resolved on_connected on_start on_send on_close on_start_reading
    on_stop_reading on_written on_read
step w (connect host port) = fire w (on_connect host port w.socket)
step w start = fire w (on_start w.socket)
step w close = fire w (on_close w.socket)
step w start_reading = fire w (on_start_reading w.socket)
step w stop_reading = fire w (on_stop_reading w.socket)
step w (send buf) =
    let kept = if drops w.socket then w.accepted else w.accepted ++ buf ∷ [] in
    fire (record w { accepted = kept }) (on_send buf w.socket)
step w (resolved ec) =
    if ltb 0 w.resolves
    then fire (record w { resolves = w.resolves - 1 }) (on_resolved ec w.socket)
    else w
step w (connected ec open_after) =
    if ltb 0 w.connects
    then fire (record w { connects = w.connects - 1 }) (on_connected ec open_after w.socket)
    else w
step w (written ec) =
    let done = if ec then w.sent else w.sent ++ front w.socket.write_queue in
    if ltb 0 w.writes
    then fire (record w { writes = w.writes - 1; sent = done }) (on_written ec w.socket)
    else w
step w (read ec bytes) =
    if ltb 0 w.reads then fire (record w { reads = w.reads - 1 }) (on_read ec bytes w.socket) else w

unfoldable pub run : World → List Event → World
run w [] = w
run w (e ∷ es) = run (step w e) es
