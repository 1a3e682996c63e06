-- ===== src/UdpSocket/Invariant/Preserved.antt =====
-- The invariant of a UdpSocket, handler by handler.
use rtcvpn.Common.{
  ℕ, ◌-◌, ◌<◌, ◌≡◌, refl, List, [], ◌∷◌, ◌++◌, Bool, true, false, if◌then◌else◌, append-nil,
  append_assoc, arith, Bool-cases, inl, inr, ltb, ltb→lt,
}
use rtcvpn.UdpSocket.{
  UdpSocket, PendingSend, on_start, on_send, on_close, on_start_reading, on_stop_reading,
  on_resolved, on_sent, on_received, drops,
}
use rtcvpn.UdpSocket.World.{
  World, Event, Outcome, delivered, unresolved, items, delivered_items, start, close, start_reading,
  stop_reading, send, resolved, sent_to, received, front_as, initial, step, run,
}
use rtcvpn.UdpSocket.Invariant.{
  Core, Inv, After, fire-Inv, initial-Inv, IsFresh, items-append, delivered_items-append,
}

module _ (s : UdpSocket) (r n c : ℕ) (accepted handed : List PendingSend) (done : List Outcome)
    (v : Core s r n accepted done handed c) where
  on_start-After : (a b : Bool) → After r n accepted done handed c (on_start a b s)
  unfolding on_start
  on_start-After a b = ground (arith, append-nil handed)

  on_close-After : After r n accepted done handed c (on_close s)
  unfolding on_close
  on_close-After = ground (arith, append-nil handed)

  on_start_reading-After : After r n accepted done handed c (on_start_reading s)
  unfolding on_start_reading
  on_start_reading-After = ground (arith, append-nil handed)

  on_stop_reading-After : After r n accepted done handed c (on_stop_reading s)
  unfolding on_stop_reading
  on_stop_reading-After = ground (arith, append-nil handed)

  on_received-After :
      (ec : Bool) (host : List ℕ) (port : ℕ) (bytes : List ℕ)
      → After r n accepted done handed c (on_received ec host port bytes s)
  unfolding on_received
  on_received-After ec host port bytes = ground (arith, append-nil handed)

  on_send-After :
      (item : PendingSend)
      → After r n
          (if drops s then accepted else accepted ++ item ∷ [])
          done
          handed
          c
          (on_send item s)
  unfolding on_send
  on_send-After item = ground (
    arith,
    append-nil handed,
    append-nil (items done),
    append-nil (delivered_items done),
    append_assoc (items done) s.send_queue (item ∷ []),
  )

  on_resolved_ok-After :
      (q : List PendingSend)
      → s.send_queue ≡ q
      → 0 < r
      → After (r - 1) n accepted done handed c (on_resolved false s)
  unfolding on_resolved
  on_resolved_ok-After [] e h = absurd (v.sending (omega arith) e)
  on_resolved_ok-After (i ∷ q) e h = ground (arith, append-nil handed)

  on_resolved_error-After :
      (q : List PendingSend)
      → s.send_queue ≡ q
      → 0 < r
      → After
          (r - 1)
          n
          accepted
          (done ++ front_as unresolved s.send_queue)
          handed
          c
          (on_resolved true s)
  unfolding on_resolved
  on_resolved_error-After [] e h = absurd (v.sending (omega arith) e)
  on_resolved_error-After (i ∷ []) e h = ground (
    arith,
    append-nil handed,
    append-nil (items done ++ i ∷ []),
    append-nil (delivered_items done),
    items-append done (unresolved i ∷ []),
    delivered_items-append done (unresolved i ∷ []),
  )
  on_resolved_error-After (i ∷ j ∷ q) e h = ground (
    arith,
    append-nil handed,
    append_assoc (items done) (i ∷ []) (j ∷ q),
    append-nil (delivered_items done),
    items-append done (unresolved i ∷ []),
    delivered_items-append done (unresolved i ∷ []),
  )

  on_sent_error-After : 0 < n → After r (n - 1) accepted done handed c (on_sent true s)
  unfolding on_sent
  on_sent_error-After h = ground (arith, append-nil handed)

  on_sent_ok-After :
      (q : List PendingSend)
      → s.send_queue ≡ q
      → 0 < n
      → After r
          (n - 1)
          accepted
          (done ++ front_as delivered s.send_queue)
          handed
          c
          (on_sent false s)
  unfolding on_sent
  on_sent_ok-After [] e h = absurd (v.sending (omega arith) e)
  on_sent_ok-After (i ∷ []) e h = ground (
    arith,
    append-nil handed,
    append-nil (items done ++ i ∷ []),
    append-nil (delivered_items done ++ i ∷ []),
    items-append done (delivered i ∷ []),
    delivered_items-append done (delivered i ∷ []),
  )
  on_sent_ok-After (i ∷ j ∷ q) e h = ground (
    arith,
    append-nil handed,
    append_assoc (items done) (i ∷ []) (j ∷ q),
    items-append done (delivered i ∷ []),
    delivered_items-append done (delivered i ∷ []),
  )

-- Every event keeps the invariant.
pub step-Inv : (w : World) (e : Event) → Inv w → Inv (step w e)
unfolding step
step-Inv w (start a b) v =
    fire-Inv w _ (on_start-After w.socket w.resolves w.sends _ w.accepted _ w.done v a b)
step-Inv w close v =
    fire-Inv w _ (on_close-After w.socket w.resolves w.sends _ w.accepted _ w.done v)
step-Inv w start_reading v =
    fire-Inv w _ (on_start_reading-After w.socket w.resolves w.sends _ w.accepted _ w.done v)
step-Inv w stop_reading v =
    fire-Inv w _ (on_stop_reading-After w.socket w.resolves w.sends _ w.accepted _ w.done v)
step-Inv w (send item) v =
    fire-Inv
      (record w { accepted = if drops w.socket then w.accepted else w.accepted ++ item ∷ [] })
      (on_send item w.socket)
      (on_send-After w.socket w.resolves w.sends _ w.accepted _ w.done v item)
step-Inv w (resolved true) v = elim (Bool-cases (ltb 0 w.resolves)) [
  | inl on ↦ rw on (
      fire-Inv
        (record w {
          resolves = w.resolves - 1;
          done = w.done ++ front_as unresolved w.socket.send_queue;
        })
        (on_resolved true w.socket)
        (on_resolved_error-After w.socket w.resolves w.sends _ w.accepted _ w.done v
          w.socket.send_queue refl (ltb→lt _ _ on)))
  | inr off ↦ rw off v
]
step-Inv w (resolved false) v = elim (Bool-cases (ltb 0 w.resolves)) [
  | inl on ↦ rw on (
      fire-Inv (record w { resolves = w.resolves - 1 }) (on_resolved false w.socket)
        (on_resolved_ok-After w.socket w.resolves w.sends _ w.accepted _ w.done v
          w.socket.send_queue refl (ltb→lt _ _ on)))
  | inr off ↦ rw off v
]
step-Inv w (sent_to true) v = elim (Bool-cases (ltb 0 w.sends)) [
  | inl on ↦ rw on (
      fire-Inv (record w { sends = w.sends - 1 }) (on_sent true w.socket)
        (on_sent_error-After w.socket w.resolves w.sends _ w.accepted _ w.done v (ltb→lt _ _ on)))
  | inr off ↦ rw off v
]
step-Inv w (sent_to false) v = elim (Bool-cases (ltb 0 w.sends)) [
  | inl on ↦ rw on (
      fire-Inv
        (record w { sends = w.sends - 1; done = w.done ++ front_as delivered w.socket.send_queue })
        (on_sent false w.socket)
        (on_sent_ok-After w.socket w.resolves w.sends _ w.accepted _ w.done v w.socket.send_queue
          refl (ltb→lt _ _ on)))
  | inr off ↦ rw off v
]
step-Inv w (received ec host port bytes) v = elim (Bool-cases (ltb 0 w.reads)) [
  | inl on ↦ rw on (
      fire-Inv (record w { reads = w.reads - 1 }) (on_received ec host port bytes w.socket)
        (on_received-After w.socket w.resolves w.sends _ w.accepted _ w.done v ec host port bytes))
  | inr off ↦ rw off v
]

run-Inv_from : (w : World) (es : List Event) → Inv w → Inv (run w es)
unfolding run
run-Inv_from w [] v = v
run-Inv_from w (e ∷ es) v = run-Inv_from (step w e) es (step-Inv w e v)

-- The invariant holds after any events from a fresh socket.
pub run-Inv : (s : UdpSocket) (es : List Event) → IsFresh s → Inv (run (initial s) es)
run-Inv s es f = run-Inv_from (initial s) es (initial-Inv s f)
