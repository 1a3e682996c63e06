-- ===== src/Mux/Abstract.antt =====
-- What a peer or an owner can see of a SessionManager: the session of every stream id, and not the
-- objects' places, the order of the map, or objects that nothing leads to.
pub mod Laws
use mathlib.Core.Quot
use mathlib.Core.Quot.{Quot, Quot-set}
use rtcvpn.Common.{
  ℕ, ◌≡◌, ◌∙◌, refl, sym, ap, arith, List, Option, none, some, ◌==◌, if◌then◌else◌, drop,
  Option-cases, inl, inr,
}
use rtcvpn.Protocol.Types.{FrameType, syn}
use rtcvpn.Protocol.Frame.{FrameHeader, header_size, decode}
use rtcvpn.Mux.{SessionMux, Call, dispatch, on_p2p_data}
use rtcvpn.Mux.Manager.{
  Session, SessionManager, new_session, create_session, remove_session, session_of,
}
use rtcvpn.Mux.Manager.Sessions.{
  IsWellFormed, create_session-IsWellFormed, remove_session-IsWellFormed, session_of-create_session,
  session_of-remove_session,
}

abbrev pub WellFormed : Type 0
WellFormed = (m : SessionManager) × IsWellFormed m

abbrev pub SameSessions : WellFormed → WellFormed → Type 0
SameSessions m n = (k : ℕ) → session_of m.0 k ≡ session_of n.0 k

abbrev pub Sessions : Type 0
Sessions = Quot SameSessions

Session-set : IsSet (Option Session)
Session-set = hlevel

Call-set : IsSet (Option Call)
Call-set = hlevel

abbrev after_create : ℕ → WellFormed → WellFormed
after_create k (m, w) = ((create_session m k).0, create_session-IsWellFormed m k w)

abbrev after_remove : ℕ → WellFormed → WellFormed
after_remove k (m, w) = (remove_session m k, remove_session-IsWellFormed m k w)

create-SameSessions :
    (k : ℕ) (m n : WellFormed)
    → SameSessions m n
    → SameSessions (after_create k m) (after_create k n)
create-SameSessions k (m, v) (n, w) same j =
    session_of-create_session m k j v
    ∙ ap (λ o. if k == j then some (new_session k) else o) (same j)
    ∙ sym (session_of-create_session n k j w)

remove-SameSessions :
    (k : ℕ) (m n : WellFormed)
    → SameSessions m n
    → SameSessions (after_remove k m) (after_remove k n)
remove-SameSessions k (m, v) (n, w) same j =
    session_of-remove_session m k j
    ∙ ap (λ o. if k == j then none else o) (same j)
    ∙ sym (session_of-remove_session n k j)

-- create_session and remove_session.
pub create : ℕ → Sessions → Sessions
create k =
    Quot.lift Quot-set (λ m. Quot.mk (after_create k m))
      (λ m n same. Quot.sound (create-SameSessions k m n same))

pub remove : ℕ → Sessions → Sessions
remove k =
    Quot.lift Quot-set (λ m. Quot.mk (after_remove k m))
      (λ m n same. Quot.sound (remove-SameSessions k m n same))

-- The session of a stream id.
pub look : ℕ → Sessions → Option Session
look k = Quot.lift Session-set (λ m. session_of m.0 k) (λ m n same. same k)

with_manager : SessionMux → SessionManager → SessionMux
with_manager a m = record a { session_manager = m }

dispatch_same :
    (a : SessionMux) (m n : WellFormed) (t : FrameType) (h : FrameHeader) (payload : List ℕ)
    → SameSessions m n
    → dispatch t (with_manager a m.0) h payload ≡ dispatch t (with_manager a n.0) h payload
unfolding dispatch with_manager
dispatch_same a m n syn h payload same = refl
dispatch_same a m n t h payload same = ground (arith, same h.stream_id)

on_p2p_data_same :
    (a : SessionMux) (frame : List ℕ) (m n : WellFormed)
    → SameSessions m n
    → on_p2p_data (with_manager a m.0) frame ≡ on_p2p_data (with_manager a n.0) frame
unfolding on_p2p_data
on_p2p_data_same a frame m n same = elim (Option-cases (decode frame)) [
  | inl e ↦ rw (e, on_p2p_data) refl
  | inr (h, e) ↦ rw (e, on_p2p_data) (dispatch_same a m n h.type h (drop header_size frame) same)
]

-- What a received frame calls, in a multiplexer with these sessions.
pub calls : SessionMux → List ℕ → Sessions → Option Call
calls a frame =
    Quot.lift Call-set (λ m. on_p2p_data (with_manager a m.0) frame) (on_p2p_data_same a frame)

look-create :
    (k j : ℕ) (s : Sessions)
    → look j (create k s) ≡ (if k == j then some (new_session k) else look j s)
unfolding look create
look-create k j = Quot.ind (λ s. Session-set _ _) (λ (m, w). session_of-create_session m k j w)

look-remove : (k j : ℕ) (s : Sessions) → look j (remove k s) ≡ (if k == j then none else look j s)
unfolding look remove
look-remove k j = Quot.ind (λ s. Session-set _ _) (λ (m, w). session_of-remove_session m k j)

look_injective : (s t : Sessions) → ((k : ℕ) → look k s ≡ look k t) → s ≡ t
unfolding look
look_injective =
    Quot.ind (λ s f g i t same. Quot-set s t (f t same) (g t same) i)
      (λ m. Quot.ind (λ t f g i same. Quot-set _ t (f same) (g same) i) (λ n same. Quot.sound same))
