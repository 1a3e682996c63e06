-- ===== src/Mux/Interleaving/Apart.antt =====
-- What happens to the sessions of other streams makes no difference to a stream.
use mathlib.Core.Option
use rtcvpn.Common.{
  ℕ, ◌≡◌, ◌∙◌, refl, sym, ap, arith, List, [], ◌∷◌, ◌++◌, true, false, Option, none, some, ◌==◌,
  if◌then◌else◌, drop, Bool-cases, Option-cases, inl, inr,
}
use rtcvpn.Protocol.Types.{FrameType, syn}
use rtcvpn.Protocol.Frame.{FrameHeader, header_size, decode}
use rtcvpn.Mux.{SessionMux, dispatch, on_p2p_data}
use rtcvpn.Mux.Manager.{Session, new_session, find_session, session_of}
use rtcvpn.Mux.Manager.Sessions.{
  IsWellFormed, create_session-IsWellFormed, remove_session-IsWellFormed,
  update_session-IsWellFormed, session_of-create_session, session_of-remove_session,
  session_of-update_session, session_of-absent,
}
use rtcvpn.Mux.Interleaving.{
  Setter, data_setter, synack_setter, close_setter, data_ctrl_setter, set, Event, creates, removes,
  installs, receives, install, step, run, answer, about, only, calls_of,
}

-- What an event of stream k makes of its session.
abbrev effect : Event → Option Session → Option Session
effect (creates sid) o = some (new_session sid)
effect (removes sid) o = none
effect (installs sid f) o = Option.map (set f) o
effect (receives frame) o = o

session_of-install :
    (m : SessionMux) (sid k : ℕ) (f : Setter)
    → IsWellFormed m.session_manager
    → session_of (install m sid f).session_manager k ≡ (
        if sid == k
        then Option.map (set f) (session_of m.session_manager k)
        else session_of m.session_manager k)
session_of-install m sid k f w = elim (Option-cases (find_session m.session_manager sid)) [
  | inl e ↦ rw (e, install) (ground (arith, session_of-absent m.session_manager sid e))
  | inr (p, e) ↦ rw (e, install) (session_of-update_session m.session_manager (set f) sid k p e w)
]

set_keeps_id : (f : Setter) (s : Session) → (set f s).stream_id ≡ s.stream_id
set_keeps_id (data_setter _) s = refl
set_keeps_id (synack_setter _) s = refl
set_keeps_id (close_setter _) s = refl
set_keeps_id (data_ctrl_setter _) s = refl

install-IsWellFormed :
    (m : SessionMux) (sid : ℕ) (f : Setter)
    → IsWellFormed m.session_manager
    → IsWellFormed (install m sid f).session_manager
install-IsWellFormed m sid f w = elim (Option-cases (find_session m.session_manager sid)) [
  | inl e ↦ rw (e, install) w
  | inr (p, e) ↦
      rw (e, install) (update_session-IsWellFormed m.session_manager (set f) p (set_keeps_id f) w)
]

session_of-step :
    (e : Event) (m : SessionMux) (k : ℕ)
    → IsWellFormed m.session_manager
    → session_of (step e m).session_manager k ≡ (
        if about k e
        then effect e (session_of m.session_manager k)
        else session_of m.session_manager k)
unfolding step about
session_of-step (creates sid) m k w =
    ground (arith, session_of-create_session m.session_manager sid k w)
session_of-step (removes sid) m k w = session_of-remove_session m.session_manager sid k
session_of-step (installs sid f) m k w = session_of-install m sid k f w
session_of-step (receives frame) m k w = ground arith

step-IsWellFormed :
    (e : Event) (m : SessionMux)
    → IsWellFormed m.session_manager
    → IsWellFormed (step e m).session_manager
unfolding step
step-IsWellFormed (creates sid) m w = create_session-IsWellFormed m.session_manager sid w
step-IsWellFormed (removes sid) m w = remove_session-IsWellFormed m.session_manager sid w
step-IsWellFormed (installs sid f) m w = install-IsWellFormed m sid f w
step-IsWellFormed (receives frame) m w = w

on_syn-step : (e : Event) (m : SessionMux) → (step e m).on_syn ≡ m.on_syn
unfolding step
on_syn-step (creates sid) m = refl
on_syn-step (removes sid) m = refl
on_syn-step (installs sid f) m = ground arith
on_syn-step (receives frame) m = refl

-- Two multiplexers that do the same for the frames of stream k.
record IsAlike (k : ℕ) (m n : SessionMux) : Type 0 where
  formed : IsWellFormed m.session_manager
  formed' : IsWellFormed n.session_manager
  session : session_of m.session_manager k ≡ session_of n.session_manager k
  handler : m.on_syn ≡ n.on_syn

IsAlike-step :
    (e : Event) (k : ℕ) (m n : SessionMux) → IsAlike k m n → IsAlike k (step e m) (step e n)
IsAlike-step e k m n a = record {
  formed = step-IsWellFormed e m a.formed;
  formed' = step-IsWellFormed e n a.formed';
  session =
      session_of-step e m k a.formed
      ∙ ap (λ o. if about k e then effect e o else o) a.session
      ∙ sym (session_of-step e n k a.formed');
  handler = on_syn-step e m ∙ a.handler ∙ sym (on_syn-step e n);
}

IsAlike-other :
    (e : Event) (k : ℕ) (m n : SessionMux)
    → about k e ≡ false
    → IsAlike k m n
    → IsAlike k (step e m) n
IsAlike-other e k m n other a = record {
  formed = step-IsWellFormed e m a.formed;
  formed' = a.formed';
  session = ground (arith, session_of-step e m k a.formed, a.session);
  handler = on_syn-step e m ∙ a.handler;
}

dispatch_agrees :
    (t : FrameType) (h : FrameHeader) (payload : List ℕ) (k : ℕ) (m n : SessionMux)
    → IsAlike k m n
    → (h.stream_id == k) ≡ true
    → dispatch t m h payload ≡ dispatch t n h payload
unfolding dispatch
dispatch_agrees syn h payload k m n a here = ground (arith, a.handler)
dispatch_agrees t h payload k m n a here = ground (arith, a.session)

answer_agrees :
    (e : Event) (k : ℕ) (m n : SessionMux)
    → IsAlike k m n
    → about k e ≡ true
    → answer e m ≡ answer e n
unfolding answer about on_p2p_data
answer_agrees (creates sid) k m n a here = refl
answer_agrees (removes sid) k m n a here = refl
answer_agrees (installs sid f) k m n a here = refl
answer_agrees (receives frame) k m n a here = elim (Option-cases (decode frame)) [
  | inl e ↦ rw (e, on_p2p_data) refl
  | inr (h, e) ↦
      rw (e, on_p2p_data)
        (ap (λ c. c ∷ [])
          (dispatch_agrees h.type h (drop header_size frame) k m n a (ground (arith, e, here))))
]

ends_agree :
    (k : ℕ) (es : List Event) (m n : SessionMux)
    → IsAlike k m n
    → (calls_of k es m ≡ calls_of k (only k es) n)
      × (session_of (run es m).session_manager k ≡ session_of (run (only k es) n).session_manager k)
unfolding calls_of only run
ends_agree k [] m n a = (refl, a.session)
ends_agree k (e ∷ es) m n a = elim (Bool-cases (about k e)) [
  | inl y ↦
      let (calls, session) = ends_agree k es (step e m) (step e n) (IsAlike-step e k m n a) in
      rw y (rw y (rw (answer_agrees e k m n a y) (ap (◌++◌ (answer e n)) calls, session)))
  | inr y ↦
      let (calls, session) = ends_agree k es (step e m) n (IsAlike-other e k m n y a) in
      rw y (calls, session)
]

-- In a well-formed multiplexer, whatever happens to the sessions of all streams in any order: what
-- is called for the frames of one stream, and the session of that stream at the
-- end, are what they are if nothing but the events of that stream happens.
pub streams_apart :
    (k : ℕ) (es : List Event) (m : SessionMux)
    → IsWellFormed m.session_manager
    → (calls_of k es m ≡ calls_of k (only k es) m)
      × (session_of (run es m).session_manager k ≡ session_of (run (only k es) m).session_manager k)
streams_apart k es m w =
    ends_agree k es m m (record { formed = w; formed' = w; session = refl; handler = refl })
