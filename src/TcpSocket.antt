-- ===== src/TcpSocket.antt =====
-- Src/common/include/tcp_socket.h and Src/common/src/tcp_socket.cpp. Every handler that runs in
-- the strand is a function from the socket's state to the new state and the effects, in order:
-- operations started on the network library and callbacks called. An error code is `true` where
-- it reports an error. A callback field says whether the callback is installed.
pub mod World
pub mod Invariant
pub mod Order
pub mod Closing
pub mod Reading
pub mod Backpressure
mod Tests
use rtcvpn.Common.{
  ℕ, List, [], ◌∷◌, ◌++◌, Bool, true, false, not, ◌&&◌, ◌||◌, ltb, leb, if◌then◌else◌, length,
}
use rtcvpn.Protocol.Types.{WriteQueueStatus, danger, safety}

pub record TcpSocket : Type 0 where
  pub is_open : Bool  -- socket_.is_open()
  pub is_connected : Bool
  pub write_queue : List (List ℕ)
  pub is_sending : Bool
  pub is_closing : Bool
  pub is_closed : Bool
  pub write_queue_status : WriteQueueStatus
  pub is_reading : Bool
  pub connect_callback : Bool
  pub data_callback : Bool
  pub close_callback : Bool
  pub write_queue_callback : Bool

-- Operations started, and callbacks called.
pub data Effect : Type 0 where
  async_resolve : List ℕ → ℕ → Effect
  async_connect : Effect
  async_write : List ℕ → Effect
  async_read : Effect
  close_socket : Effect
  call_connect : Bool → Effect
  call_data : List ℕ → Effect
  call_close : Effect
  call_write_queue : WriteQueueStatus → Effect

-- TcpSocket(io).
abbrev pub new_socket : TcpSocket
new_socket = record {
  is_open = false;
  is_connected = false;
  write_queue = [];
  is_sending = false;
  is_closing = false;
  is_closed = false;
  write_queue_status = safety;
  is_reading = true;
  connect_callback = false;
  data_callback = false;
  close_callback = false;
  write_queue_callback = false;
}

-- TcpSocket(io, socket), where release and assign succeed.
abbrev pub from_socket : TcpSocket
from_socket = record new_socket { is_open = true; is_connected = true }

abbrev pub set_connect_callback : TcpSocket → TcpSocket
set_connect_callback s = record s { connect_callback = true }

abbrev pub set_data_callback : TcpSocket → TcpSocket
set_data_callback s = record s { data_callback = true }

abbrev pub set_close_callback : TcpSocket → TcpSocket
set_close_callback s = record s { close_callback = true }

abbrev pub set_write_queue_callback : TcpSocket → TcpSocket
set_write_queue_callback s = record s { write_queue_callback = true }

-- `if (callback) callback(…)`.
abbrev when : Bool → Effect → List Effect
when b e = if b then e ∷ [] else []

-- do_close.
do_close : TcpSocket → TcpSocket × List Effect
do_close s = if s.is_closed then (s, []) else (
  record s { is_closed = true; is_open = false },
  when s.is_open close_socket ++ when s.close_callback call_close,
)

-- do_write; it is called with a queue that is not empty.
abbrev do_write : TcpSocket → List Effect
do_write s = elim s.write_queue [ [] ↦ [] | front ∷ _ ↦ async_write front ∷ [] ]

-- The handler that connect posts.
pub on_connect : List ℕ → ℕ → TcpSocket → TcpSocket × List Effect
on_connect host port s = (s, async_resolve host port ∷ [])

-- The completion of async_resolve.
pub on_resolved : Bool → TcpSocket → TcpSocket × List Effect
on_resolved ec s =
    if ec then (s, when s.connect_callback (call_connect false)) else (s, async_connect ∷ [])

-- The completion of async_connect, which has opened the socket where it succeeds; `open` is
-- whether a failed attempt leaves it open.
pub on_connected : Bool → Bool → TcpSocket → TcpSocket × List Effect
on_connected ec open_after s =
    if ec
    then (record s { is_open = open_after }, when s.connect_callback (call_connect false))
    else (
      record s { is_open = true; is_connected = true },
      when s.connect_callback (call_connect true) ++ async_read ∷ [],
    )

-- The handler that start posts.
pub on_start : TcpSocket → TcpSocket × List Effect
on_start s =
    if not s.is_connected
    then (s, [])
    else if s.is_closing || s.is_closed
    then (s, [])
    else (s, async_read ∷ [])

-- The test of send that drops the data: not connected, or closing or closed.
abbrev pub drops : TcpSocket → Bool
drops s = not s.is_connected || s.is_closing || s.is_closed

-- The handler that send posts.
pub on_send : List ℕ → TcpSocket → TcpSocket × List Effect
on_send buf s =
    let queued = record s { write_queue = s.write_queue ++ buf ∷ [] } in
    if drops s
    then (s, [])
    else if not s.is_sending
    then (record queued { is_sending = true }, do_write queued)
    else (queued, [])

-- The handler that close posts.
pub on_close : TcpSocket → TcpSocket × List Effect
unfolding do_close
on_close s =
    let closing = record s { is_closing = true } in
    if s.is_closing || s.is_closed
    then (s, [])
    else if not s.is_connected
    then do_close closing
    else if not s.is_sending && leb (length s.write_queue) 0
    then do_close closing
    else (closing, [])

pub on_start_reading : TcpSocket → TcpSocket × List Effect
on_start_reading s =
    if s.is_reading || s.is_closing || s.is_closed
    then (s, [])
    else (record s { is_reading = true }, when s.is_connected async_read)

pub on_stop_reading : TcpSocket → TcpSocket × List Effect
on_stop_reading s = (record s { is_reading = false }, [])

abbrev pop_front : List (List ℕ) → List (List ℕ)
pop_front [] = []
pop_front (_ ∷ rest) = rest

-- The status tests behind a write that emptied the queue.
update_status : TcpSocket → TcpSocket × List Effect
update_status s = elim s.write_queue_status [
  | danger ↦
      if ltb (length s.write_queue) 2000
      then (
        record s { write_queue_status = safety },
        when s.write_queue_callback (call_write_queue safety),
      )
      else (s, [])
  | safety ↦
      if leb 4000 (length s.write_queue)
      then (
        record s { write_queue_status = danger },
        when s.write_queue_callback (call_write_queue danger),
      )
      else (s, [])
]

-- The last lines of the write completion, once the queue is empty.
finish_sending : TcpSocket → TcpSocket × List Effect
unfolding update_status do_close
finish_sending s =
    let (t, told) = update_status s in
    let idle = record t { is_sending = false } in
    let (closed, effects) = do_close idle in
    if idle.is_closing then (closed, told ++ effects) else (idle, told)

-- The completion of async_write.
pub on_written : Bool → TcpSocket → TcpSocket × List Effect
unfolding finish_sending do_close
on_written ec s =
    let popped = record s { write_queue = pop_front s.write_queue } in
    if ec
    then do_close (record s { is_closing = true })
    else if ltb 0 (length popped.write_queue)
    then (popped, do_write popped)
    else finish_sending popped

-- The completion of async_read_some, with the bytes that it read.
pub on_read : Bool → List ℕ → TcpSocket → TcpSocket × List Effect
unfolding do_close
on_read ec bytes s =
    if ec
    then do_close (record s { is_closing = true })
    else (s, when s.data_callback (call_data bytes) ++ when s.is_reading async_read)
