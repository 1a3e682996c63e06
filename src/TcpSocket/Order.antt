-- ===== src/TcpSocket/Order.antt =====
-- The order in which buffers leave the socket.
use rtcvpn.Common.{
  ℕ, ◌≤◌, ◌≡◌, sym, ◌∙◌, List, [], ◌∷◌, ◌++◌, Bool, true, false, if◌then◌else◌, append-nil,
  append_assoc, ap,
}
use rtcvpn.TcpSocket.{TcpSocket}
use rtcvpn.TcpSocket.World.{World, Event, started, front, initial, run}
use rtcvpn.TcpSocket.Invariant.{Inv, IsFresh}
use rtcvpn.TcpSocket.Invariant.Preserved.{run-Inv}

-- From a fresh socket, after any events in any order that the library can complete them: at most
-- one write is outstanding; the accepted buffers are those sent followed by those queued; and the
-- buffers handed to async_write so far are a prefix of the accepted ones, in the order of the
-- sends, none left out and none twice.
pub writes_in_order :
    (s : TcpSocket) (es : List Event)
    → IsFresh s
    → let w = run (initial s) es in
      (w.writes ≤ 1)
      × (w.accepted ≡ w.sent ++ w.socket.write_queue)
      × ((rest : List (List ℕ)) × (w.accepted ≡ started w.trace ++ rest))
writes_in_order s es f =
    (v.one_write, v.fifo, prefix_of w.socket.is_sending w.socket.write_queue v.fifo v.in_flight)
  where
    w : World
    w = run (initial s) es

    v : Inv w
    v = run-Inv s es f

    prefix_of :
        (b : Bool) (q : List (List ℕ))
        → w.accepted ≡ w.sent ++ q
        → started w.trace ≡ w.sent ++ (if b then front q else [])
        → (rest : List (List ℕ)) × (w.accepted ≡ started w.trace ++ rest)
    prefix_of false q e h =
        (q, e ∙ ap (λ l. l ++ q) (sym (append-nil w.sent)) ∙ ap (λ l. l ++ q) (sym h))
    prefix_of true [] e h = ([], e ∙ sym (append-nil (w.sent ++ [])) ∙ ap (λ l. l ++ []) (sym h))
    prefix_of true (b ∷ q) e h =
        (q, e ∙ sym (append_assoc w.sent (b ∷ []) q) ∙ ap (λ l. l ++ q) (sym h))
