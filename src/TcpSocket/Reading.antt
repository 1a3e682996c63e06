-- ===== src/TcpSocket/Reading.antt =====
-- startReading and stopReading against the reads that are outstanding.
use rtcvpn.Common.{ℕ, zero, suc, ◌+◌, ◌≤◌, ◌≡◌, refl, List, [], ◌∷◌, Bool, true, false, arith, All}
use rtcvpn.TcpSocket.{
  on_connect, on_resolved, on_send, on_close, on_start_reading, on_stop_reading, on_written,
  on_read,
}
use rtcvpn.TcpSocket.World.{
  World, Event, connect, start, start_reading, stop_reading, connected, step, run,
}

abbrev pub toggles : ℕ → List Event
toggles zero = []
toggles (suc k) = stop_reading ∷ start_reading ∷ toggles k

-- On a connected socket that is neither closing nor closed, each pair of stopReading and
-- startReading adds one to the outstanding reads.
pub reads_pile_up :
    (w : World) (k : ℕ)
    → w.socket.is_connected ≡ true
    → w.socket.is_closing ≡ false
    → w.socket.is_closed ≡ false
    → (run w (toggles k)).reads ≡ w.reads + k
unfolding run step on_stop_reading on_start_reading
reads_pile_up w zero c n m = omega arith
reads_pile_up w (suc k) c n m =
    let toggled = step (step w stop_reading) start_reading in
    ground (arith, reads_pile_up toggled k)

-- The events that can start a read besides the completion of one.
abbrev starts_reading : Event → Bool
starts_reading start = true
starts_reading start_reading = true
starts_reading (connected _ _) = true
starts_reading _ = false

stopped : (w : World) → (step w stop_reading).socket.is_reading ≡ false
unfolding step on_stop_reading
stopped w = refl

reads-stop_reading : (w : World) → (step w stop_reading).reads ≡ w.reads
unfolding step on_stop_reading
reads-stop_reading w = omega arith

step-paused :
    (w : World) (e : Event)
    → starts_reading e ≡ false
    → w.socket.is_reading ≡ false
    → ((step w e).socket.is_reading ≡ false) × ((step w e).reads ≤ w.reads)
unfolding step on_connect on_resolved on_send on_close on_stop_reading on_written on_read
step-paused w (connect host port) calm p = ground arith
step-paused w e calm p = ground arith

run-paused :
    (w : World) (es : List Event)
    → All (λ e. starts_reading e ≡ false) es
    → w.socket.is_reading ≡ false
    → (run w es).reads ≤ w.reads
unfolding run
run-paused w [] calm p = omega arith
run-paused w (e ∷ es) calm p =
    let (off, fewer) = step-paused w e calm.0 p in
    omega (arith, run-paused (step w e) es calm.1 off)

-- After stopReading and any events without start, startReading and a completed connection, no more
-- reads are outstanding than before.
pub paused :
    (w : World) (es : List Event)
    → All (λ e. starts_reading e ≡ false) es
    → (run (step w stop_reading) es).reads ≤ w.reads
paused w es calm =
    omega (arith, run-paused (step w stop_reading) es calm (stopped w), reads-stop_reading w)
