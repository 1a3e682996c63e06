-- ===== src/TcpSocket/Invariant/Preserved.antt =====
-- The invariant of a TcpSocket, handler by handler.
use rtcvpn.Common.{
  ℕ, ◌-◌, ◌<◌, ◌≡◌, refl, List, [], ◌∷◌, ◌++◌, Bool, true, false, if◌then◌else◌, append-nil,
  append_assoc, arith, Bool-cases, inl, inr, ltb, ltb→lt,
}
use rtcvpn.TcpSocket.{
  TcpSocket, on_connect, on_resolved, on_connected, on_start, on_send, on_close, on_start_reading,
  on_stop_reading, on_written, on_read, drops,
}
use rtcvpn.TcpSocket.World.{
  World, Event, connect, start, close, start_reading, stop_reading, send, resolved, connected,
  written, read, front, initial, step, run,
}
use rtcvpn.TcpSocket.Invariant.{Core, Inv, After, fire-Inv, initial-Inv, IsFresh}

module _ (s : TcpSocket) (n c : ℕ) (accepted sent handed : List (List ℕ))
    (v : Core s n accepted sent handed c) where
  on_connect-After :
      (host : List ℕ) (port : ℕ) → After n accepted sent handed c (on_connect host port s)
  unfolding on_connect
  on_connect-After host port = ground (arith, append-nil handed)

  on_resolved-After : (ec : Bool) → After n accepted sent handed c (on_resolved ec s)
  unfolding on_resolved
  on_resolved-After ec = ground (arith, append-nil handed)

  on_connected-After : (ec o : Bool) → After n accepted sent handed c (on_connected ec o s)
  unfolding on_connected
  on_connected-After ec o = ground (arith, append-nil handed)

  on_start-After : After n accepted sent handed c (on_start s)
  unfolding on_start
  on_start-After = ground (arith, append-nil handed)

  on_close-After : After n accepted sent handed c (on_close s)
  unfolding on_close
  on_close-After = ground (arith, append-nil handed)

  on_start_reading-After : After n accepted sent handed c (on_start_reading s)
  unfolding on_start_reading
  on_start_reading-After = ground (arith, append-nil handed)

  on_stop_reading-After : After n accepted sent handed c (on_stop_reading s)
  unfolding on_stop_reading
  on_stop_reading-After = ground (arith, append-nil handed)

  on_read-After : (ec : Bool) (bytes : List ℕ) → After n accepted sent handed c (on_read ec bytes s)
  unfolding on_read
  on_read-After ec bytes = ground (arith, append-nil handed)

  on_send-After :
      (buf : List ℕ)
      → After n (if drops s then accepted else accepted ++ buf ∷ []) sent handed c (on_send buf s)
  unfolding on_send
  on_send-After buf =
      ground (arith, append-nil handed, append-nil sent, append_assoc sent s.write_queue (buf ∷ []))

  on_written_error-After : After (n - 1) accepted sent handed c (on_written true s)
  unfolding on_written
  on_written_error-After = ground (arith, append-nil handed)

  on_written_ok-After :
      (q : List (List ℕ))
      → s.write_queue ≡ q
      → 0 < n
      → After (n - 1) accepted (sent ++ front s.write_queue) handed c (on_written false s)
  unfolding on_written
  on_written_ok-After [] e h = absurd (v.writing h e)
  on_written_ok-After (b ∷ []) e h = ground (arith, append-nil handed, append-nil (sent ++ b ∷ []))
  on_written_ok-After (b ∷ d ∷ rest) e h =
      ground (arith, append_assoc sent (b ∷ []) (d ∷ rest), append_assoc sent (b ∷ []) (d ∷ []))

-- Every event keeps the invariant.
pub step-Inv : (w : World) (e : Event) → Inv w → Inv (step w e)
unfolding step
step-Inv w (connect host port) v =
    fire-Inv w _ (on_connect-After w.socket w.writes _ w.accepted w.sent _ v host port)
step-Inv w start v = fire-Inv w _ (on_start-After w.socket w.writes _ w.accepted w.sent _ v)
step-Inv w close v = fire-Inv w _ (on_close-After w.socket w.writes _ w.accepted w.sent _ v)
step-Inv w start_reading v =
    fire-Inv w _ (on_start_reading-After w.socket w.writes _ w.accepted w.sent _ v)
step-Inv w stop_reading v =
    fire-Inv w _ (on_stop_reading-After w.socket w.writes _ w.accepted w.sent _ v)
step-Inv w (send buf) v =
    fire-Inv (record w { accepted = if drops w.socket then w.accepted else w.accepted ++ buf ∷ [] })
      (on_send buf w.socket) (on_send-After w.socket w.writes _ w.accepted w.sent _ v buf)
step-Inv w (resolved ec) v = elim (Bool-cases (ltb 0 w.resolves)) [
  | inl on ↦ rw on (
      fire-Inv (record w { resolves = w.resolves - 1 }) (on_resolved ec w.socket)
        (on_resolved-After w.socket w.writes _ w.accepted w.sent _ v ec))
  | inr off ↦ rw off v
]
step-Inv w (connected ec o) v = elim (Bool-cases (ltb 0 w.connects)) [
  | inl on ↦ rw on (
      fire-Inv (record w { connects = w.connects - 1 }) (on_connected ec o w.socket)
        (on_connected-After w.socket w.writes _ w.accepted w.sent _ v ec o))
  | inr off ↦ rw off v
]
step-Inv w (written true) v = elim (Bool-cases (ltb 0 w.writes)) [
  | inl on ↦ rw on (
      fire-Inv (record w { writes = w.writes - 1 }) (on_written true w.socket)
        (on_written_error-After w.socket w.writes _ w.accepted w.sent _ v))
  | inr off ↦ rw off v
]
step-Inv w (written false) v = elim (Bool-cases (ltb 0 w.writes)) [
  | inl on ↦ rw on (
      fire-Inv (record w { writes = w.writes - 1; sent = w.sent ++ front w.socket.write_queue })
        (on_written false w.socket)
        (on_written_ok-After w.socket w.writes _ w.accepted w.sent _ v w.socket.write_queue refl
          (ltb→lt _ _ on)))
  | inr off ↦ rw off v
]
step-Inv w (read ec bytes) v = elim (Bool-cases (ltb 0 w.reads)) [
  | inl on ↦ rw on (
      fire-Inv (record w { reads = w.reads - 1 }) (on_read ec bytes w.socket)
        (on_read-After w.socket w.writes _ w.accepted w.sent _ v ec bytes))
  | inr off ↦ rw off v
]

run-Inv_from : (w : World) (es : List Event) → Inv w → Inv (run w es)
unfolding run
run-Inv_from w [] v = v
run-Inv_from w (e ∷ es) v = run-Inv_from (step w e) es (step-Inv w e v)

-- The invariant holds after any events from a fresh socket.
pub run-Inv : (s : TcpSocket) (es : List Event) → IsFresh s → Inv (run (initial s) es)
run-Inv s es f = run-Inv_from (initial s) es (initial-Inv s f)
