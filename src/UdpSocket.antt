-- ===== src/UdpSocket.antt =====
-- Src/common/include/udp_socket.h and Src/common/src/udp_socket.cpp. Every handler that runs in
-- the strand is a function from the socket's state to the new state and the effects, in order:
-- operations started on the network library and callbacks called. An error code is `true` where
-- it reports an error. A callback field says whether the callback is installed.
pub mod World
pub mod Invariant
pub mod Order
pub mod Closing
pub mod Starting
mod Tests
use rtcvpn.Common.{
  ℕ, List, [], ◌∷◌, ◌++◌, Bool, true, false, not, ◌&&◌, ◌||◌, leb, if◌then◌else◌, length,
}

pub record PendingSend : Type 0 where
  pub target_host : List ℕ
  pub target_port : ℕ
  pub payload : List ℕ

pub record UdpSocket : Type 0 where
  pub socket_open : Bool  -- socket_.is_open()
  pub is_open : Bool
  pub send_queue : List PendingSend
  pub is_sending : Bool
  pub is_closing : Bool
  pub is_closed : Bool
  pub open_callback : Bool
  pub data_callback : Bool
  pub close_callback : Bool
  pub write_queue_callback : Bool
  pub is_reading : Bool

-- Operations started, and callbacks called.
pub data Effect : Type 0 where
  async_resolve : List ℕ → ℕ → Effect
  async_send_to : PendingSend → Effect
  async_receive : Effect
  close_socket : Effect
  call_open : Bool → Effect
  call_data : List ℕ → ℕ → List ℕ → Effect
  call_close : Effect

-- UdpSocket(io).
abbrev pub new_socket : UdpSocket
new_socket = record {
  socket_open = false;
  is_open = false;
  send_queue = [];
  is_sending = false;
  is_closing = false;
  is_closed = false;
  open_callback = false;
  data_callback = false;
  close_callback = false;
  write_queue_callback = false;
  is_reading = true;
}

abbrev pub set_open_callback : UdpSocket → UdpSocket
set_open_callback s = record s { open_callback = true }

abbrev pub set_data_callback : UdpSocket → UdpSocket
set_data_callback s = record s { data_callback = true }

abbrev pub set_close_callback : UdpSocket → UdpSocket
set_close_callback s = record s { close_callback = true }

abbrev pub set_write_queue_callback : UdpSocket → UdpSocket
set_write_queue_callback s = record s { write_queue_callback = true }

-- `if (callback) callback(…)`.
abbrev when : Bool → Effect → List Effect
when b e = if b then e ∷ [] else []

-- do_close.
do_close : UdpSocket → UdpSocket × List Effect
do_close s = if s.is_closed then (s, []) else (
  record s { is_closed = true; socket_open = false },
  when s.socket_open close_socket ++ when s.close_callback call_close,
)

-- do_send_next up to the resolver; it is called with a queue that is not empty.
abbrev do_send_next : List PendingSend → List Effect
do_send_next [] = []
do_send_next (item ∷ _) = async_resolve item.target_host item.target_port ∷ []

abbrev pop_front : List PendingSend → List PendingSend
pop_front [] = []
pop_front (_ ∷ rest) = rest

-- The handler that start posts: the results of socket_.open and of socket_.bind.
pub on_start : Bool → Bool → UdpSocket → UdpSocket × List Effect
on_start open_error bind_error s =
    if open_error
    then (s, when s.open_callback (call_open false))
    else if bind_error
    then (record s { socket_open = true }, when s.open_callback (call_open false))
    else (
      record s { socket_open = true; is_open = true },
      when s.open_callback (call_open true) ++ async_receive ∷ [],
    )

-- The test of send that drops the data.
abbrev pub drops : UdpSocket → Bool
drops s = not s.is_open || s.is_closing || s.is_closed

-- The handler that send posts.
pub on_send : PendingSend → UdpSocket → UdpSocket × List Effect
on_send item s =
    let queued = record s { send_queue = s.send_queue ++ item ∷ [] } in
    if drops s
    then (s, [])
    else if not s.is_sending
    then (record queued { is_sending = true }, do_send_next queued.send_queue)
    else (queued, [])

-- The handler that close posts.
pub on_close : UdpSocket → UdpSocket × List Effect
unfolding do_close
on_close s =
    let closing = record s { is_closing = true } in
    if s.is_closing || s.is_closed
    then (s, [])
    else if not s.is_open
    then do_close closing
    else if not s.is_sending && leb (length s.send_queue) 0
    then do_close closing
    else (closing, [])

pub on_start_reading : UdpSocket → UdpSocket × List Effect
on_start_reading s =
    if s.is_reading || s.is_closing || s.is_closed
    then (s, [])
    else (record s { is_reading = true }, when s.is_open async_receive)

pub on_stop_reading : UdpSocket → UdpSocket × List Effect
on_stop_reading s = (record s { is_reading = false }, [])

-- Behind an item that is done, sent or not resolved: the next one, or the end of the queue.
next_item : UdpSocket → UdpSocket × List Effect
unfolding do_close
next_item s = elim (pop_front s.send_queue) [
  | [] ↦
      (let idle = record s { send_queue = []; is_sending = false } in
        if idle.is_closing then do_close idle else (idle, []))
  | item ∷ rest ↦ (record s { send_queue = item ∷ rest }, do_send_next (item ∷ rest))
]

-- The completion of async_resolve.
pub on_resolved : Bool → UdpSocket → UdpSocket × List Effect
unfolding next_item
on_resolved ec s =
    if ec
    then next_item s
    else elim s.send_queue [ [] ↦ (s, []) | item ∷ _ ↦ (s, async_send_to item ∷ []) ]

-- The completion of async_send_to.
pub on_sent : Bool → UdpSocket → UdpSocket × List Effect
unfolding next_item do_close
on_sent ec s = if ec then do_close (record s { is_closing = true }) else next_item s

-- The completion of async_receive_from, with the sender and the bytes received.
pub on_received : Bool → List ℕ → ℕ → List ℕ → UdpSocket → UdpSocket × List Effect
unfolding do_close
on_received ec host port bytes s =
    if ec
    then do_close (record s { is_closing = true })
    else (s, when s.data_callback (call_data host port bytes) ++ when s.is_reading async_receive)
