-- ===== src/UdpSocket/Tests.antt =====
-- Runs of a socket, from the owner's calls and the library's completions.
use rtcvpn.Common.{ℕ, ◌+◌, ◌≤◌, ◌≡◌, ◌⊎◌, refl, List, [], ◌∷◌, ◌++◌, true, false}
use rtcvpn.UdpSocket.{
  UdpSocket, PendingSend, new_socket, set_close_callback, set_open_callback, on_start, on_close,
  on_send, on_resolved, on_sent,
}
use rtcvpn.UdpSocket.World.{
  Event, start, close, send, resolved, sent_to, started, items, delivered_items, front, initial,
  step, run,
}
use rtcvpn.UdpSocket.Invariant.{IsFresh}
use rtcvpn.UdpSocket.Order.{datagrams_in_order}
use rtcvpn.UdpSocket.Closing.{close_flushes}

abbrev relay_socket : UdpSocket
relay_socket = set_open_callback (set_close_callback new_socket)

relay_socket-IsFresh : IsFresh relay_socket
relay_socket-IsFresh = record {
  empty = refl;
  not_sending = refl;
  not_closing = refl;
  not_closed = refl;
}

abbrev to_host : ℕ → PendingSend
to_host n = record { target_host = n ∷ []; target_port = 53; payload = 1 ∷ n ∷ [] }

-- Three datagrams are sent, the owner closes, and the second host does not resolve.
abbrev three_sends : List Event
three_sends =
    start false false
    ∷ send (to_host 7)
    ∷ send (to_host 8)
    ∷ send (to_host 9)
    ∷ close
    ∷ resolved false
    ∷ sent_to false
    ∷ resolved true
    ∷ resolved false
    ∷ sent_to false
    ∷ []

datagrams_in_order_example :
    let w = run (initial relay_socket) three_sends in
    (w.resolves + w.sends ≤ 1)
    × (w.accepted ≡ items w.done ++ w.socket.send_queue)
    × ((started w.trace ≡ delivered_items w.done)
        ⊎ (started w.trace ≡ delivered_items w.done ++ front w.socket.send_queue))
datagrams_in_order_example = datagrams_in_order relay_socket three_sends relay_socket-IsFresh

three_sends_closed : (run (initial relay_socket) three_sends).socket.is_closed ≡ true
unfolding run step on_start on_close on_send on_resolved on_sent
three_sends_closed = refl

close_flushes_example :
    items (run (initial relay_socket) three_sends).done
    ≡ (run (initial relay_socket) three_sends).accepted
close_flushes_example =
    close_flushes relay_socket three_sends relay_socket-IsFresh
      (
        λ e. e,
        (
          λ e. e,
          (λ e. e, (λ e. e, (λ e. e, (λ e. e, (λ e. e, (λ e. e, (λ e. e, (λ e. e, tt)))))))),
        ),
      )
      three_sends_closed
