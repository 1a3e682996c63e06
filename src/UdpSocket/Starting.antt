-- ===== src/UdpSocket/Starting.antt =====
-- start on a socket that is closed.
use rtcvpn.Common.{◌+◌, ◌≡◌, ◌∙◌, refl, List, [], ◌∷◌, ◌++◌, true, false, if◌then◌else◌, arith}
use rtcvpn.UdpSocket.{
  async_receive, call_open, on_start, on_send, on_close, on_start_reading, on_stop_reading,
  on_resolved, on_sent, on_received,
}
use rtcvpn.UdpSocket.World.{World, Event, start, step, run}

step_closed :
    (w : World) (e : Event)
    → w.socket.is_closed ≡ true
    → w.socket.socket_open ≡ true
    → let next = step w e in
      (next.socket.is_closed ≡ true)
      × (next.socket.socket_open ≡ true)
      × (next.accepted ≡ w.accepted)
unfolding step on_start on_send on_close on_start_reading on_stop_reading on_resolved on_sent
    on_received
step_closed w e c o = ground arith

run_closed :
    (w : World) (es : List Event)
    → w.socket.is_closed ≡ true
    → w.socket.socket_open ≡ true
    → let later = run w es in
      (later.socket.is_closed ≡ true)
      × (later.socket.socket_open ≡ true)
      × (later.accepted ≡ w.accepted)
unfolding run
run_closed w [] c o = (c, o, refl)
run_closed w (e ∷ es) c o =
    let (c1, o1, a1) = step_closed w e c o in
    let (c2, o2, a2) = run_closed (step w e) es c1 o1 in (c2, o2, a2 ∙ a1)

-- start on a closed socket, where opening and binding succeed, opens the socket, calls the open
-- callback, where installed, with success and starts to receive; and after any later events,
-- calls of close included, the socket is still open and no datagram has been accepted.
pub start_after_close_leaks :
    (w : World) (es : List Event)
    → w.socket.is_closed ≡ true
    → let opened = step w (start false false) in
      let later = run opened es in
      (opened.trace
        ≡ w.trace
          ++ ((if w.socket.open_callback then call_open true ∷ [] else []) ++ async_receive ∷ []))
      × (opened.reads ≡ w.reads + 1)
      × (later.socket.socket_open ≡ true)
      × (later.socket.is_closed ≡ true)
      × (later.accepted ≡ w.accepted)
unfolding step on_start
start_after_close_leaks w es c =
    let (c1, o1, a1) = run_closed (step w (start false false)) es (ground arith) (ground arith) in
    (ground arith, ground arith, o1, c1, a1)
