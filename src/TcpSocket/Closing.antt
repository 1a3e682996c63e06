-- ===== src/TcpSocket/Closing.antt =====
-- close: what is still sent, and how often the close callback is called.
use rtcvpn.Common.{
  ℕ, ◌+◌, ◌≡◌, sym, ◌∙◌, List, [], ◌∷◌, ◌++◌, true, false, ◌&&◌, if◌then◌else◌, append-nil, arith,
  ap, Bool-cases, inl, inr, length, All, replicate,
}
use rtcvpn.TcpSocket.{
  TcpSocket, async_read, async_connect, call_connect, on_connect, on_resolved, on_connected,
  on_start, on_send, on_close, on_start_reading, on_stop_reading, on_written, on_read,
}
use rtcvpn.TcpSocket.World.{
  World, Event, connect, close, resolved, connected, written, read, count, is_call_close, initial,
  step, run,
}
use rtcvpn.TcpSocket.Invariant.{Inv, IsFresh, initial-Inv}
use rtcvpn.TcpSocket.Invariant.Preserved.{step-Inv, run-Inv}

-- From a fresh socket, after any events, errors and repeated calls of close included, the close
-- callback was called once if the socket is closed and the callback is installed, and never
-- otherwise.
pub close_callback_once :
    (s : TcpSocket) (es : List Event)
    → IsFresh s
    → let w = run (initial s) es in
      count is_call_close w.trace ≡ (if w.socket.is_closed && w.socket.close_callback then 1 else 0)
close_callback_once s es f = (run-Inv s es f).close_calls

-- A write or a read that completes with an error.
abbrev pub IsError : Event → Type 0
IsError (written true) = Unit {0}
IsError (read true _) = Unit {0}
IsError _ = ⊥

record IsDraining (w : World) : Type 0 where
  unconnected : w.socket.is_connected ≡ false → w.socket.is_sending ≡ false
  empty : w.socket.is_closed ≡ true → w.socket.write_queue ≡ []

step-IsDraining :
    (w : World) (e : Event) → ¬ IsError e → Inv w → IsDraining w → IsDraining (step w e)
unfolding step on_connect on_resolved on_connected on_start on_send on_close on_start_reading
    on_stop_reading on_written on_read
step-IsDraining w (connect host port) ne v d = ground arith
step-IsDraining w (written true) ne v d = absurd (ne tt)
step-IsDraining w (read true _) ne v d = absurd (ne tt)
step-IsDraining w e ne v d = ground arith

run-IsDraining :
    (w : World) (es : List Event)
    → All (λ e. ¬ IsError e) es
    → Inv w
    → IsDraining w
    → IsDraining (run w es)
unfolding run
run-IsDraining w [] ok v d = d
run-IsDraining w (e ∷ es) ok v d =
    run-IsDraining (step w e) es ok.1 (step-Inv w e v) (step-IsDraining w e ok.0 v d)

-- From a fresh socket, after events in which no read and no write failed, a socket that is closed
-- has written every buffer that send accepted.
pub close_drains :
    (s : TcpSocket) (es : List Event)
    → IsFresh s
    → All (λ e. ¬ IsError e) es
    → (run (initial s) es).socket.is_closed ≡ true
    → (run (initial s) es).sent ≡ (run (initial s) es).accepted
close_drains s es f ok closed =
    let v = run-Inv s es f in
    let d =
      run-IsDraining (initial s) es ok (initial-Inv s f)
        (record { unconnected = λ _. f.not_sending; empty = λ c. f.empty }) in
    sym (v.fifo ∙ rw (d.empty closed) (append-nil (run (initial s) es).sent))

module _ (w : World) (b : List ℕ) (pending : w.writes ≡ 1) where
  written_last :
      w.socket.write_queue ≡ b ∷ []
      → w.socket.is_closing ≡ true
      → (step w (written false)).socket.is_closed ≡ true
  unfolding step on_written
  written_last e c = ground arith

  written_more :
      (d : List ℕ) (q : List (List ℕ))
      → w.socket.write_queue ≡ b ∷ d ∷ q
      → (step w (written false)).socket ≡ record w.socket { write_queue = d ∷ q }
  unfolding step on_written
  written_more d q e = ground arith

  accepted-written : (step w (written false)).accepted ≡ w.accepted
  unfolding step
  accepted-written = ground arith

pending_write :
    (w : World) → Inv w → w.socket.is_closed ≡ false → w.socket.is_sending ≡ true → w.writes ≡ 1
pending_write w v n s = ground (arith, v.busy s)

closing_finishes :
    (q : List (List ℕ)) (w : World)
    → Inv w
    → w.socket.write_queue ≡ q
    → w.socket.is_closing ≡ true
    → w.socket.is_closed ≡ false
    → w.socket.is_sending ≡ true
    → (run w (replicate (length q) (written false))).socket.is_closed ≡ true
unfolding run
closing_finishes [] w v e c n s = absurd (v.writing (omega (arith, pending_write w v n s)) e)
closing_finishes (b ∷ []) w v e c n s = written_last w b (pending_write w v n s) e c
closing_finishes (b ∷ d ∷ q) w v e c n s =
    let same = written_more w b (pending_write w v n s) d q e in
    closing_finishes (d ∷ q) (step w (written false)) (step-Inv w (written false) v)
      (ap (λ (t : TcpSocket). t.write_queue) same) (ap (λ (t : TcpSocket). t.is_closing) same ∙ c)
      (ap (λ (t : TcpSocket). t.is_closed) same ∙ n) (ap (λ (t : TcpSocket). t.is_sending) same ∙ s)

-- A socket in a state that satisfies the invariant, connected and neither closing nor closed, is
-- closed after a call of close and as many successful write completions as its queue had buffers.
pub close_completes :
    (w : World)
    → Inv w
    → w.socket.is_connected ≡ true
    → w.socket.is_closing ≡ false
    → w.socket.is_closed ≡ false
    → (run w (close ∷ replicate (length w.socket.write_queue) (written false))).socket.is_closed
      ≡ true
unfolding run step on_close
close_completes w v k c n = elim (Bool-cases w.socket.is_sending) [
  | inl s ↦
      closing_finishes w.socket.write_queue (step w close) (step-Inv w close v) (ground arith)
        (ground arith) (ground arith) (ground arith)
  | inr s ↦ rw (v.idle s).0 (ground (arith, v.idle s))
]

-- If a socket is closed while its host is being resolved and no connection attempt is under way,
-- and the resolver and then the connection succeed, the socket is connected and open again and
-- still marked closed, one more read is outstanding on it, and the connect callback, where
-- installed, is told of success.
pub connects_after_close :
    (w : World)
    → w.socket.is_closed ≡ true
    → w.resolves ≡ 1
    → w.connects ≡ 0
    → let late = run w (resolved false ∷ connected false true ∷ []) in
      (late.socket.is_connected ≡ true)
      × (late.socket.is_open ≡ true)
      × (late.socket.is_closed ≡ true)
      × (late.reads ≡ w.reads + 1)
      × (late.trace
          ≡ w.trace
            ++ async_connect ∷ []
            ++ ((if w.socket.connect_callback then call_connect true ∷ [] else [])
                ++ async_read ∷ []))
unfolding run step on_resolved on_connected
connects_after_close w c r n = ground arith
