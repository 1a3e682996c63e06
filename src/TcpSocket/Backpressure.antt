-- ===== src/TcpSocket/Backpressure.antt =====
-- The write queue's status and length in TcpSocket::do_write and send.
use rtcvpn.Common.{
  ℕ, zero, suc, ◌+◌, ◌-◌, ◌≡◌, refl, ◌∙◌, List, [], ◌∷◌, ◌++◌, Bool, true, false, if◌then◌else◌,
  arith, ltb, length, replicate, length-append,
}
use rtcvpn.Protocol.Types.{safety}
use rtcvpn.TcpSocket.{
  TcpSocket, Effect, call_write_queue, on_connect, on_resolved, on_connected, on_start, on_send,
  on_close, on_start_reading, on_stop_reading, on_written, on_read, drops,
}
use rtcvpn.TcpSocket.World.{
  World, Event, connect, start, close, start_reading, stop_reading, send, resolved, connected,
  written, read, count, front, initial, step, run, fire,
}
use rtcvpn.TcpSocket.Invariant.{Inv, IsFresh, initial-Inv, count-append}
use rtcvpn.TcpSocket.Invariant.Preserved.{step-Inv, run-Inv}

abbrev pub is_call_write_queue : Effect → ℕ
is_call_write_queue (call_write_queue _) = 1
is_call_write_queue _ = 0

-- The effects of a handler tell the write queue callback nothing.
module _ (s : TcpSocket) where
  on_written_silent :
      (ec : Bool) (q : List (List ℕ))
      → s.write_queue ≡ q
      → s.write_queue_status ≡ safety
      → count is_call_write_queue (on_written ec s).1 ≡ 0
  unfolding on_written
  on_written_silent ec [] e safe = ground arith
  on_written_silent ec (b ∷ []) e safe = ground arith
  on_written_silent ec (b ∷ d ∷ q) e safe = ground arith

  others_silent :
      (host bytes : List ℕ) (port : ℕ) (ec o : Bool)
      → (count is_call_write_queue (on_connect host port s).1 ≡ 0)
        × (count is_call_write_queue (on_resolved ec s).1 ≡ 0)
        × (count is_call_write_queue (on_connected ec o s).1 ≡ 0)
        × (count is_call_write_queue (on_start s).1 ≡ 0)
        × (count is_call_write_queue (on_send bytes s).1 ≡ 0)
        × (count is_call_write_queue (on_close s).1 ≡ 0)
        × (count is_call_write_queue (on_start_reading s).1 ≡ 0)
        × (count is_call_write_queue (on_read ec bytes s).1 ≡ 0)
  unfolding on_connect on_resolved on_connected on_start on_send on_close on_start_reading on_read
  others_silent host bytes port ec o = (
    ground arith,
    ground arith,
    ground arith,
    ground arith,
    ground arith,
    ground arith,
    ground arith,
    ground arith,
  )

fire-silent :
    (w : World) (r : TcpSocket × List Effect)
    → count is_call_write_queue r.1 ≡ 0
    → count is_call_write_queue (fire w r).trace ≡ count is_call_write_queue w.trace
fire-silent w (s, effects) h = omega (arith, count-append is_call_write_queue w.trace effects)

-- A completion that nothing waits for changes nothing.
guarded :
    (b : Bool) (w u : World)
    → count is_call_write_queue u.trace ≡ count is_call_write_queue w.trace
    → count is_call_write_queue (if b then u else w).trace ≡ count is_call_write_queue w.trace
guarded true w u h = h
guarded false w u h = refl

step-silent :
    (w : World) (e : Event)
    → w.socket.write_queue_status ≡ safety
    → count is_call_write_queue (step w e).trace ≡ count is_call_write_queue w.trace
unfolding step
step-silent w (connect host port) s =
    fire-silent w (on_connect host port w.socket) (others_silent w.socket host [] port true true).0
step-silent w start s =
    fire-silent w (on_start w.socket) (others_silent w.socket [] [] 0 true true).3
step-silent w close s =
    fire-silent w (on_close w.socket) (others_silent w.socket [] [] 0 true true).5
step-silent w start_reading s =
    fire-silent w (on_start_reading w.socket) (others_silent w.socket [] [] 0 true true).6
step-silent w stop_reading s =
    fire-silent w (on_stop_reading w.socket) (unfold on_stop_reading in refl)
step-silent w (send buf) s =
    fire-silent w (on_send buf w.socket) (others_silent w.socket [] buf 0 true true).4
step-silent w (resolved ec) s = guarded (ltb 0 w.resolves) w _ (
    fire-silent (record w { resolves = w.resolves - 1 }) (on_resolved ec w.socket)
      (others_silent w.socket [] [] 0 ec true).1)
step-silent w (connected ec o) s = guarded (ltb 0 w.connects) w _ (
    fire-silent (record w { connects = w.connects - 1 }) (on_connected ec o w.socket)
      (others_silent w.socket [] [] 0 ec o).2)
step-silent w (written ec) s = guarded (ltb 0 w.writes) w _ (
    fire-silent
      (record w {
        writes = w.writes - 1;
        sent = if ec then w.sent else w.sent ++ front w.socket.write_queue;
      })
      (on_written ec w.socket) (on_written_silent w.socket ec w.socket.write_queue refl s))
step-silent w (read ec bytes) s = guarded (ltb 0 w.reads) w _ (
    fire-silent (record w { reads = w.reads - 1 }) (on_read ec bytes w.socket)
      (others_silent w.socket [] bytes 0 ec true).7)

run-silent :
    (w : World) (es : List Event)
    → Inv w
    → count is_call_write_queue (run w es).trace ≡ count is_call_write_queue w.trace
unfolding run
run-silent w [] v = refl
run-silent w (e ∷ es) v = run-silent (step w e) es (step-Inv w e v) ∙ step-silent w e v.status

-- From a fresh socket, after any events, the write queue status is Safety and the write queue
-- callback has never been called.
pub write_queue_status_stuck :
    (s : TcpSocket) (es : List Event)
    → IsFresh s
    → let w = run (initial s) es in
      (w.socket.write_queue_status ≡ safety) × (count is_call_write_queue w.trace ≡ 0)
write_queue_status_stuck s es f =
    ((run-Inv s es f).status, run-silent (initial s) es (initial-Inv s f))

ready :
    (w : World) (buf : List ℕ) → drops w.socket ≡ false → drops (step w (send buf)).socket ≡ false
unfolding step on_send
ready w buf d = ground arith

queued :
    (w : World) (buf : List ℕ)
    → drops w.socket ≡ false
    → length (step w (send buf)).socket.write_queue ≡ length w.socket.write_queue + 1
unfolding step on_send
queued w buf d = ground (arith, length-append w.socket.write_queue (buf ∷ []))

-- On a socket that does not drop what it is given, n sends without a completed write make the queue
-- longer by n, whatever n is.
pub queue_grows :
    (w : World) (buf : List ℕ) (n : ℕ)
    → drops w.socket ≡ false
    → let after = (run w (replicate n (send buf))).socket in
      length after.write_queue ≡ length w.socket.write_queue + n
unfolding run
queue_grows w buf zero d = omega arith
queue_grows w buf (suc n) d =
    omega (arith, queue_grows (step w (send buf)) buf n (ready w buf d), queued w buf d)
