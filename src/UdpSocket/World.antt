-- ===== src/UdpSocket/World.antt =====
-- The socket with the operations that are outstanding on it, and every order of events.
use rtcvpn.Common.{ℕ, ◌+◌, ◌-◌, List, [], ◌∷◌, ◌++◌, Bool, ltb, if◌then◌else◌}
use rtcvpn.UdpSocket.{
  UdpSocket, PendingSend, Effect, async_resolve, async_send_to, async_receive, call_close, on_start,
  on_send, on_close, on_start_reading, on_stop_reading, on_resolved, on_sent, on_received, drops,
}

-- A call of the socket's owner, or the completion of an outstanding operation.
pub data Event : Type 0 where
  start : Bool → Bool → Event
  close start_reading stop_reading : Event
  send : PendingSend → Event
  resolved : Bool → Event
  sent_to : Bool → Event
  received : Bool → List ℕ → ℕ → List ℕ → Event

-- What became of an accepted datagram: sent, or its host did not resolve.
pub data Outcome : Type 0 where
  delivered : PendingSend → Outcome
  unresolved : PendingSend → Outcome

abbrev pub item_of : Outcome → PendingSend
item_of (delivered i) = i
item_of (unresolved i) = i

-- `resolves`, `sends` and `reads` count what is outstanding; `accepted` are the datagrams that
-- send queued and `done` those that left the queue, oldest first; `trace` are all effects so far.
pub record World : Type 0 where
  pub socket : UdpSocket
  pub resolves : ℕ
  pub sends : ℕ
  pub reads : ℕ
  pub accepted : List PendingSend
  pub done : List Outcome
  pub trace : List Effect

abbrev pub initial : UdpSocket → World
initial s = record {
  socket = s;
  resolves = 0;
  sends = 0;
  reads = 0;
  accepted = [];
  done = [];
  trace = [];
}

abbrev pub is_resolve : Effect → ℕ
is_resolve (async_resolve _ _) = 1
is_resolve _ = 0

abbrev pub is_send_to : Effect → ℕ
is_send_to (async_send_to _) = 1
is_send_to _ = 0

abbrev pub is_receive : Effect → ℕ
is_receive async_receive = 1
is_receive _ = 0

abbrev pub is_call_close : Effect → ℕ
is_call_close call_close = 1
is_call_close _ = 0

abbrev pub count : (Effect → ℕ) → List Effect → ℕ
count p [] = 0
count p (e ∷ es) = p e + count p es

-- The datagrams handed to async_send_to, oldest first.
abbrev pub started : List Effect → List PendingSend
started [] = []
started (async_send_to i ∷ es) = i ∷ started es
started (_ ∷ es) = started es

abbrev pub items : List Outcome → List PendingSend
items [] = []
items (o ∷ os) = item_of o ∷ items os

-- Those that were sent.
abbrev pub delivered_items : List Outcome → List PendingSend
delivered_items [] = []
delivered_items (delivered i ∷ os) = i ∷ delivered_items os
delivered_items (unresolved _ ∷ os) = delivered_items os

abbrev pub front_as : (PendingSend → Outcome) → List PendingSend → List Outcome
front_as f [] = []
front_as f (i ∷ _) = f i ∷ []

abbrev pub front : List PendingSend → List PendingSend
front [] = []
front (i ∷ _) = i ∷ []

-- A handler has run: its effects are recorded and its operations are outstanding.
abbrev pub fire : World → UdpSocket × List Effect → World
fire w (s, effects) = record w {
  socket = s;
  resolves = w.resolves + count is_resolve effects;
  sends = w.sends + count is_send_to effects;
  reads = w.reads + count is_receive effects;
  trace = w.trace ++ effects;
}

-- A completion arrives only for an operation that is outstanding; otherwise nothing happens.
unfoldable pub step : World → Event → World
unfolding on_start on_send on_close on_start_reading on_stop_reading on_resolved on_sent on_received
step w (start open_error bind_error) = fire w (on_start open_error bind_error w.socket)
step w close = fire w (on_close w.socket)
step w start_reading = fire w (on_start_reading w.socket)
step w stop_reading = fire w (on_stop_reading w.socket)
step w (send item) =
    let kept = if drops w.socket then w.accepted else w.accepted ++ item ∷ [] in
    fire (record w { accepted = kept }) (on_send item w.socket)
step w (resolved ec) =
    let done = if ec then w.done ++ front_as unresolved w.socket.send_queue else w.done in
    if ltb 0 w.resolves
    then fire (record w { resolves = w.resolves - 1; done = done }) (on_resolved ec w.socket)
    else w
step w (sent_to ec) =
    let done = if ec then w.done else w.done ++ front_as delivered w.socket.send_queue in
    if ltb 0 w.sends
    then fire (record w { sends = w.sends - 1; done = done }) (on_sent ec w.socket)
    else w
step w (received ec host port bytes) =
    if ltb 0 w.reads
    then fire (record w { reads = w.reads - 1 }) (on_received ec host port bytes w.socket)
    else w

unfoldable pub run : World → List Event → World
run w [] = w
run w (e ∷ es) = run (step w e) es
