-- ===== src/UdpSocket/Order.antt =====
-- The order in which datagrams leave the socket.
use rtcvpn.Common.{◌+◌, ◌≤◌, ◌≡◌, ◌⊎◌, inl, inr, List, ◌++◌, Bool-cases, ltb, arith, ltb→lt}
use rtcvpn.UdpSocket.{UdpSocket}
use rtcvpn.UdpSocket.World.{World, Event, items, delivered_items, started, front, initial, run}
use rtcvpn.UdpSocket.Invariant.{Inv, IsFresh}
use rtcvpn.UdpSocket.Invariant.Preserved.{run-Inv}

handed_over :
    (w : World)
    → Inv w
    → (started w.trace ≡ delivered_items w.done)
      ⊎ (started w.trace ≡ delivered_items w.done ++ front w.socket.send_queue)
handed_over w v = elim (Bool-cases (ltb 0 w.sends)) [
  | inl on ↦ inr (v.in_flight (ltb→lt _ _ on))
  | inr off ↦ elim (v.quiet (ground (arith, off))) [ inl e ↦ inl e | inr e ↦ inr e.2 ]
]

-- From a fresh socket, after any events in any order that the library can complete them: at most
-- one host resolution or send is outstanding; the accepted datagrams are those that are done, sent
-- or with a host that did not resolve, followed by those queued, in the order of the sends; and
-- async_send_to got exactly the datagrams that were sent, in that order, and after them at most
-- the first one in the queue.
pub datagrams_in_order :
    (s : UdpSocket) (es : List Event)
    → IsFresh s
    → let w = run (initial s) es in
      (w.resolves + w.sends ≤ 1)
      × (w.accepted ≡ items w.done ++ w.socket.send_queue)
      × ((started w.trace ≡ delivered_items w.done)
          ⊎ (started w.trace ≡ delivered_items w.done ++ front w.socket.send_queue))
datagrams_in_order s es f =
    let v = run-Inv s es f in (v.one_operation, v.fifo, handed_over (run (initial s) es) v)
