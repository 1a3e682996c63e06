-- ===== src/Server/Interface/Life.antt =====
-- The life of a SessionInterface: whatever its owner and its socket do, in any order.
use rtcvpn.Common.{
  Bool-cases, ◌⊎◌, inl, inr, ℕ, ◌+◌, ◌≡◌, refl, sym, ap, append-nil, append_assoc, ◌∙◌, arith, List,
  [], ◌∷◌, ◌++◌, Bool, true, false, not, ◌&&◌, Option, none, some, if◌then◌else◌, ◌>>=◌,
}
use rtcvpn.Protocol.Types.{WriteQueueStatus}
use rtcvpn.Server.Interface.Counts.{
  finishes, closes, sent, finishes-append, closes-append, sent-append,
}
use rtcvpn.Server.Interface.{
  SessionInterface, Call, call_data, call_close, call_finish, call_synack, virtual_close,
  new_interface, stop, write_queue, received, connected, close_session, init, tunnel_close,
  tunnel_send_fin, tunnel_send_data, tunnel_send_synack,
}

-- `peer_closes` is the owner's stop, and `target_closes` the close callback of the socket.
pub data Event : Type 0 where
  peer_closes target_closes : Event
  target_connects : Bool → Event
  target_sends : List ℕ → Event
  queue_changes : WriteQueueStatus → Event

-- The interface, and all that it has called.
pub record World : Type 0 where
  pub interface : SessionInterface
  pub calls : List Call

abbrev call : World → List Call → World
call w cs = record w { calls = w.calls ++ cs }

unfoldable pub step : Event → World → Option World
unfolding stop write_queue received connected close_session
step peer_closes w =
    let (i, cs) = stop w.interface in some (record { interface = i; calls = w.calls ++ cs })
step target_closes w = do
  r ← close_session w.interface
  some (record { interface = r.0; calls = w.calls ++ r.1 })
step (target_connects ok) w = do cs ← connected ok w.interface; some (call w cs)
step (target_sends bytes) w = do cs ← received bytes w.interface; some (call w cs)
step (queue_changes status) w = do cs ← write_queue status w.interface; some (call w cs)

unfoldable pub run : List Event → World → Option World
run [] w = some w
run (e ∷ es) w = do v ← step e w; run es v

-- An interface that init has bound and nothing has used.
abbrev pub fresh : World
fresh = record { interface = init new_interface; calls = [] }

-- Whether the target closes, whether it does so with no close of the peer before, and what it
-- sends; and whether the write queue changes.
abbrev pub target_ends : List Event → Bool
target_ends [] = false
target_ends (target_closes ∷ es) = true
target_ends (_ ∷ es) = target_ends es

abbrev pub target_first : List Event → Bool
target_first [] = false
target_first (target_closes ∷ es) = true
target_first (peer_closes ∷ es) = false
target_first (_ ∷ es) = target_first es

abbrev pub target_data : List Event → List (List ℕ)
target_data [] = []
target_data (target_sends bytes ∷ es) = bytes ∷ target_data es
target_data (_ ∷ es) = target_data es

abbrev pub queue_changed : List Event → Bool
queue_changed [] = false
queue_changed (queue_changes _ ∷ es) = true
queue_changed (_ ∷ es) = queue_changed es

abbrev pub once : Bool → ℕ
once b = if b then 1 else 0

record IsBound (i : SessionInterface) : Type 0 where
  has_close : i.close_func ≡ some tunnel_close
  has_data : i.send_data ≡ some tunnel_send_data
  has_finish : i.send_finish ≡ some tunnel_send_fin
  has_synack : i.send_synack ≡ some tunnel_send_synack
  no_ctrl : i.send_data_ctrl ≡ none

-- What events lead to from a world on.
record Ends (es : List Event) (w : World) : Type 0 where
  last : World
  reached : run es w ≡ some last
  told : closes last.calls ≡ closes w.calls + once (not w.interface.is_closed && target_ends es)
  finished :
      finishes last.calls
      ≡ finishes w.calls
        + once (not w.interface.is_closed && (not w.interface.is_p2p_closed && target_first es))
  passed : sent last.calls ≡ sent w.calls ++ target_data es

-- A step that calls `cs`, and what follows.
extend :
    (e : Event) (es : List Event) (w : World) (i : SessionInterface) (cs : List Call)
    → step e w ≡ some (record { interface = i; calls = w.calls ++ cs })
    → Ends es (record { interface = i; calls = w.calls ++ cs })
    → closes cs + once (not i.is_closed && target_ends es)
      ≡ once (not w.interface.is_closed && target_ends (e ∷ es))
    → finishes cs + once (not i.is_closed && (not i.is_p2p_closed && target_first es))
      ≡ once (not w.interface.is_closed && (not w.interface.is_p2p_closed && target_first (e ∷ es)))
    → sent cs ++ target_data es ≡ target_data (e ∷ es)
    → Ends (e ∷ es) w
unfolding run
extend e es w i cs s r t f d = record {
  last = r.last;
  reached = rw s r.reached;
  told = omega (arith, r.told, t, closes-append w.calls cs);
  finished = omega (arith, r.finished, f, finishes-append w.calls cs);
  passed =
      r.passed
      ∙ ap (λ l. l ++ target_data es) (sent-append w.calls cs)
      ∙ append_assoc (sent w.calls) (sent cs) (target_data es)
      ∙ ap (◌++◌ (sent w.calls)) d;
}

closing : SessionInterface → List Call
closing i =
    if i.is_closed
    then []
    else (if i.is_p2p_closed then [] else call_finish tunnel_send_fin ∷ [])
      ++ call_close tunnel_close ∷ []

step_target_closes :
    (w : World)
    → IsBound w.interface
    → step target_closes w
      ≡ some (record {
        interface = record w.interface { is_closed = true };
        calls = w.calls ++ closing w.interface;
      })
unfolding step close_session closing
step_target_closes w b = ground arith

Flags-IsBound :
    (i : SessionInterface) (p c : Bool)
    → IsBound i
    → IsBound (record i { is_p2p_closed = p; is_closed = c })
Flags-IsBound i p c b = record {
  has_close = b.has_close;
  has_data = b.has_data;
  has_finish = b.has_finish;
  has_synack = b.has_synack;
  no_ctrl = b.no_ctrl;
}

ends : (es : List Event) (w : World) → IsBound w.interface → queue_changed es ≡ false → Ends es w
unfolding run step closing
ends [] w b q = record {
  last = w;
  reached = refl;
  told = ground arith;
  finished = ground arith;
  passed = sym (append-nil _);
}
ends (peer_closes ∷ es) w b q =
    extend peer_closes es w (record w.interface { is_p2p_closed = true }) (virtual_close ∷ []) refl
      (ends es _ (Flags-IsBound w.interface true w.interface.is_closed b) q) (ground arith)
      (ground arith) refl
ends (target_closes ∷ es) w b q =
    extend target_closes es w (record w.interface { is_closed = true }) (closing w.interface)
      (step_target_closes w b)
      (ends es _ (Flags-IsBound w.interface w.interface.is_p2p_closed true b) q) (ground arith)
      (ground arith) (ground arith)
ends (target_connects ok ∷ es) w b q =
    extend (target_connects ok) es w w.interface (call_synack tunnel_send_synack ok ∷ [])
      (ground arith) (ends es _ b q) (ground arith) (ground arith) refl
ends (target_sends bytes ∷ es) w b q =
    extend (target_sends bytes) es w w.interface (call_data tunnel_send_data bytes ∷ [])
      (ground arith) (ends es _ b q) (ground arith) (ground arith) refl
ends (queue_changes _ ∷ es) w b q = cc

queue_faults :
    (es : List Event) (w : World) → IsBound w.interface → queue_changed es ≡ true → run es w ≡ none
unfolding run step
queue_faults [] w b q = cc
queue_faults (queue_changes _ ∷ es) w b q = rw b.no_ctrl refl
queue_faults (peer_closes ∷ es) w b q =
    queue_faults es _ (Flags-IsBound w.interface true w.interface.is_closed b) q
queue_faults (target_closes ∷ es) w b q =
    rw (step_target_closes w b)
      (queue_faults es _ (Flags-IsBound w.interface w.interface.is_p2p_closed true b) q)
queue_faults (target_connects ok ∷ es) w b q = simp (b.has_synack) (queue_faults es _ b q)
queue_faults (target_sends bytes ∷ es) w b q = simp (b.has_data) (queue_faults es _ b q)

fresh-IsBound : IsBound fresh.interface
unfolding init new_interface
fresh-IsBound = record {
  has_close = refl;
  has_data = refl;
  has_finish = refl;
  has_synack = refl;
  no_ctrl = refl;
}

-- What a SessionInterface does after init, whatever its owner and its socket do, in any order: if
-- the write queue status is ever reported, it calls an empty function. If not, the data of the
-- target is handed on, all of it and in order; close_func_ is called once if the target closes and
-- never otherwise; and the function that sends the FIN is called once if the target closes with no
-- close of the peer before, and never otherwise.
pub ends_once :
    (es : List Event)
    → ((queue_changed es ≡ true) × (run es fresh ≡ none))
      ⊎ ((queue_changed es ≡ false)
          × ((w : World) × (run es fresh ≡ some w)
              × (sent w.calls ≡ target_data es)
              × (closes w.calls ≡ once (target_ends es))
              × (finishes w.calls ≡ once (target_first es))))
unfolding init new_interface
ends_once es = elim (Bool-cases (queue_changed es)) [
  | inl e ↦ inl (e, queue_faults es fresh fresh-IsBound e)
  | inr e ↦
      let r = ends es fresh fresh-IsBound e in
      inr (e, (r.last, r.reached, r.passed, omega (arith, r.told), omega (arith, r.finished)))
]
