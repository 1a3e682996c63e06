-- ===== src/UdpSocket/Closing.antt =====
-- close: what is still sent, and how often the close callback is called.
use rtcvpn.Common.{
  ◌≡◌, sym, ◌∙◌, List, [], ◌∷◌, Bool, true, false, ◌&&◌, if◌then◌else◌, append-nil, arith, ap,
  Bool-cases, inl, inr, length, All,
}
use rtcvpn.UdpSocket.{
  UdpSocket, PendingSend, on_start, on_send, on_close, on_start_reading, on_stop_reading,
  on_resolved, on_sent, on_received,
}
use rtcvpn.UdpSocket.World.{
  World, Event, close, resolved, sent_to, received, count, is_call_close, items, initial, step, run,
}
use rtcvpn.UdpSocket.Invariant.{Inv, IsFresh, initial-Inv}
use rtcvpn.UdpSocket.Invariant.Preserved.{step-Inv, run-Inv}

-- From a fresh socket, after any events, errors, failed starts and repeated calls of close
-- included, the close callback was called once if the socket is closed and the callback is
-- installed, and never otherwise.
pub notifies_close_once :
    (s : UdpSocket) (es : List Event)
    → IsFresh s
    → let w = run (initial s) es in
      count is_call_close w.trace ≡ (if w.socket.is_closed && w.socket.close_callback then 1 else 0)
notifies_close_once s es f = (run-Inv s es f).close_calls

-- A send or a receive that completes with an error.
abbrev pub IsError : Event → Type 0
IsError (sent_to true) = Unit {0}
IsError (received true _ _ _) = Unit {0}
IsError _ = ⊥

record IsDraining (w : World) : Type 0 where
  unopened : w.socket.is_open ≡ false → w.socket.is_sending ≡ false
  empty : w.socket.is_closed ≡ true → w.socket.send_queue ≡ []

step-IsDraining :
    (w : World) (e : Event) → ¬ IsError e → Inv w → IsDraining w → IsDraining (step w e)
unfolding step on_start on_send on_close on_start_reading on_stop_reading on_resolved on_sent
    on_received
step-IsDraining w (sent_to true) ne v d = absurd (ne tt)
step-IsDraining w (received true _ _ _) ne v d = absurd (ne tt)
step-IsDraining w e ne v d = ground arith

run-IsDraining :
    (w : World) (es : List Event)
    → All (λ e. ¬ IsError e) es
    → Inv w
    → IsDraining w
    → IsDraining (run w es)
unfolding run
run-IsDraining w [] ok v d = d
run-IsDraining w (e ∷ es) ok v d =
    run-IsDraining (step w e) es ok.1 (step-Inv w e v) (step-IsDraining w e ok.0 v d)

-- From a fresh socket, after events in which no send and no receive failed, a socket that is
-- closed has dealt with every datagram that send accepted, in order: each was sent or its host did
-- not resolve.
pub close_flushes :
    (s : UdpSocket) (es : List Event)
    → IsFresh s
    → All (λ e. ¬ IsError e) es
    → (run (initial s) es).socket.is_closed ≡ true
    → items (run (initial s) es).done ≡ (run (initial s) es).accepted
close_flushes s es f ok closed =
    let v = run-Inv s es f in
    let d =
      run-IsDraining (initial s) es ok (initial-Inv s f)
        (record { unopened = λ _. f.not_sending; empty = λ c. f.empty }) in
    sym (v.fifo ∙ rw (d.empty closed) (append-nil (items (run (initial s) es).done)))

-- For each datagram the resolver's answer, `true` for an error, and the completion of its send.
abbrev pub completions : List Bool → List Event
completions [] = []
completions (ec ∷ ecs) = resolved ec ∷ sent_to false ∷ completions ecs

module _ (w : World) (v : Inv w) (ec : Bool) (b : PendingSend) (s : w.socket.is_sending ≡ true)
    (n : w.socket.is_closed ≡ false) where
  completed_last :
      w.socket.send_queue ≡ b ∷ []
      → w.socket.is_closing ≡ true
      → (step (step w (resolved ec)) (sent_to false)).socket.is_closed ≡ true
  unfolding step on_resolved on_sent
  completed_last e c = ground (arith, v.busy s)

  completed_more :
      (d : PendingSend) (q : List PendingSend)
      → w.socket.send_queue ≡ b ∷ d ∷ q
      → (step (step w (resolved ec)) (sent_to false)).socket
        ≡ record w.socket { send_queue = d ∷ q }
  unfolding step on_resolved on_sent
  completed_more d q e = ground (arith, v.busy s)

closing_finishes :
    (q : List PendingSend) (ecs : List Bool) (w : World)
    → Inv w
    → w.socket.send_queue ≡ q
    → length ecs ≡ length q
    → w.socket.is_closing ≡ true
    → w.socket.is_closed ≡ false
    → w.socket.is_sending ≡ true
    → (run w (completions ecs)).socket.is_closed ≡ true
unfolding run
closing_finishes [] ecs w v e l c n s = absurd (v.sending (ground (arith, v.busy s)) e)
closing_finishes (b ∷ q) [] w v e l c n s = absurd (omega (arith, l))
closing_finishes (b ∷ []) (ec ∷ []) w v e l c n s = completed_last w v ec b s n e c
closing_finishes (b ∷ []) (ec ∷ _ ∷ _) w v e l c n s = absurd (omega (arith, l))
closing_finishes (b ∷ d ∷ q) (ec ∷ ecs) w v e l c n s =
    let same = completed_more w v ec b s n d q e in
    closing_finishes (d ∷ q) ecs (step (step w (resolved ec)) (sent_to false))
      (step-Inv _ (sent_to false) (step-Inv w (resolved ec) v))
      (ap (λ (t : UdpSocket). t.send_queue) same) (omega (arith, l))
      (ap (λ (t : UdpSocket). t.is_closing) same ∙ c) (ap (λ (t : UdpSocket). t.is_closed) same ∙ n)
      (ap (λ (t : UdpSocket). t.is_sending) same ∙ s)

-- A socket in a state that satisfies the invariant, open and neither closing nor closed, is closed
-- after a call of close and, for every datagram in its queue, the resolver's answer, of either
-- kind, and a successful send completion.
pub close_terminates :
    (w : World) (ecs : List Bool)
    → Inv w
    → length ecs ≡ length w.socket.send_queue
    → w.socket.is_open ≡ true
    → w.socket.is_closing ≡ false
    → w.socket.is_closed ≡ false
    → (run w (close ∷ completions ecs)).socket.is_closed ≡ true
unfolding run step on_close
close_terminates w ecs v l k c n = elim (Bool-cases w.socket.is_sending) [
  | inl s ↦
      closing_finishes w.socket.send_queue ecs (step w close) (step-Inv w close v) (ground arith) l
        (ground arith) (ground arith) (ground arith)
  | inr s ↦ idle_case (v.idle s).0 ecs (l ∙ ap length (v.idle s).0) s
]
  where
    idle_case :
        w.socket.send_queue ≡ []
        → (es : List Bool) → length es ≡ 0
        → w.socket.is_sending ≡ false
        → (run (step w close) (completions es)).socket.is_closed ≡ true
    idle_case e [] z s = ground arith
    idle_case e (_ ∷ _) z s = absurd (omega (arith, z))
