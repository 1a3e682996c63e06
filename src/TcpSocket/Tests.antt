-- ===== src/TcpSocket/Tests.antt =====
-- Runs of a socket, from the owner's calls and the library's completions.
use rtcvpn.Common.{
  ℕ, ◌≤◌, ◌≡◌, refl, List, [], ◌∷◌, ◌++◌, true, false, ◌&&◌, if◌then◌else◌, length, replicate,
}
use rtcvpn.Protocol.Types.{safety}
use rtcvpn.TcpSocket.{TcpSocket, from_socket, set_close_callback, on_close, on_send, on_written}
use rtcvpn.TcpSocket.World.{
  World, Event, start, close, send, written, is_call_close, count, started, initial, step, run,
}
use rtcvpn.TcpSocket.Invariant.{IsFresh}
use rtcvpn.TcpSocket.Invariant.Preserved.{run-Inv}
use rtcvpn.TcpSocket.Order.{writes_in_order}
use rtcvpn.TcpSocket.Closing.{close_callback_once, close_drains, close_completes}
use rtcvpn.TcpSocket.Backpressure.{write_queue_status_stuck, is_call_write_queue}

abbrev accepted_socket : TcpSocket
accepted_socket = set_close_callback from_socket

accepted_socket-IsFresh : IsFresh accepted_socket
accepted_socket-IsFresh = record {
  empty = refl;
  not_sending = refl;
  not_closing = refl;
  not_closed = refl;
  safe = refl;
}

-- Two buffers are sent, the owner closes, and both writes complete.
abbrev two_sends : List Event
two_sends = start ∷ send (1 ∷ []) ∷ send (2 ∷ 3 ∷ []) ∷ close ∷ written false ∷ written false ∷ []

writes_in_order_example :
    let w = run (initial accepted_socket) two_sends in
    (w.writes ≤ 1)
    × (w.accepted ≡ w.sent ++ w.socket.write_queue)
    × ((rest : List (List ℕ)) × (w.accepted ≡ started w.trace ++ rest))
writes_in_order_example = writes_in_order accepted_socket two_sends accepted_socket-IsFresh

close_callback_once_example :
    let w = run (initial accepted_socket) two_sends in
    count is_call_close w.trace ≡ (if w.socket.is_closed && w.socket.close_callback then 1 else 0)
close_callback_once_example = close_callback_once accepted_socket two_sends accepted_socket-IsFresh

two_sends_closed : (run (initial accepted_socket) two_sends).socket.is_closed ≡ true
unfolding run step on_close on_send on_written
two_sends_closed = refl

close_drains_example :
    (run (initial accepted_socket) two_sends).sent
    ≡ (run (initial accepted_socket) two_sends).accepted
close_drains_example =
    close_drains accepted_socket two_sends accepted_socket-IsFresh
      (λ e. e, (λ e. e, (λ e. e, (λ e. e, (λ e. e, (λ e. e, tt)))))) two_sends_closed

abbrev one_queued : World
one_queued = run (initial accepted_socket) (send (1 ∷ []) ∷ send (2 ∷ []) ∷ [])

one_queued_connected : one_queued.socket.is_connected ≡ true
unfolding run step on_send
one_queued_connected = refl

one_queued_open : (one_queued.socket.is_closing ≡ false) × (one_queued.socket.is_closed ≡ false)
unfolding run step on_send
one_queued_open = (refl, refl)

close_completes_example :
    (run one_queued
      (close ∷ replicate (length one_queued.socket.write_queue) (written false))).socket.is_closed
    ≡ true
close_completes_example =
    close_completes one_queued
      (run-Inv accepted_socket (send (1 ∷ []) ∷ send (2 ∷ []) ∷ []) accepted_socket-IsFresh)
      one_queued_connected one_queued_open.0 one_queued_open.1

write_queue_status_stuck_example :
    let w = run (initial accepted_socket) two_sends in
    (w.socket.write_queue_status ≡ safety) × (count is_call_write_queue w.trace ≡ 0)
write_queue_status_stuck_example =
    write_queue_status_stuck accepted_socket two_sends accepted_socket-IsFresh
