-- ===== src/Mux/Abstract/Laws.antt =====
-- The laws of the creations and removals of sessions, and what they change for received frames.
use mathlib.Core.Quot
use rtcvpn.Common.{
  ℕ, ◌≡◌, refl, arith, List, none, some, ◌==◌, if◌then◌else◌, Bool, true, false, ◌&&◌,
}
use rtcvpn.Protocol.Frame.{FrameHeader, decode}
use rtcvpn.Mux.Isolation.{needs_session, on_p2p_data-create_session, on_p2p_data-remove_session}
use rtcvpn.Mux.{SessionMux}
use rtcvpn.Mux.Abstract.{
  Sessions, Call-set, create, remove, calls, with_manager, look-create, look-remove, look_injective,
}

create_comm : (j k : ℕ) (s : Sessions) → create j (create k s) ≡ create k (create j s)
create_comm j k s = look_injective _ _ (λ i. ground (
  arith,
  look-create j i (create k s),
  look-create k i s,
  look-create k i (create j s),
  look-create j i s,
))

remove_comm : (j k : ℕ) (s : Sessions) → remove j (remove k s) ≡ remove k (remove j s)
remove_comm j k s = look_injective _ _ (λ i. ground (
  arith,
  look-remove j i (remove k s),
  look-remove k i s,
  look-remove k i (remove j s),
  look-remove j i s,
))

remove-create_when :
    (j k : ℕ) (s : Sessions) (b : Bool)
    → (j == k) ≡ b
    → remove j (create k s) ≡ (if b then remove j s else create k (remove j s))
remove-create_when j k s true e =
    look_injective _ _
      (λ i. ground (arith, look-remove j i (create k s), look-create k i s, look-remove j i s))
remove-create_when j k s false e = look_injective _ _ (λ i. ground (
  arith,
  look-remove j i (create k s),
  look-create k i s,
  look-create k i (remove j s),
  look-remove j i s,
))

remove-create :
    (j k : ℕ) (s : Sessions)
    → remove j (create k s) ≡ (if j == k then remove j s else create k (remove j s))
remove-create j k s = remove-create_when j k s (j == k) refl

create_twice : (k : ℕ) (s : Sessions) → create k (create k s) ≡ create k s
create_twice k s =
    look_injective _ _ (λ i. ground (arith, look-create k i (create k s), look-create k i s))

create-remove : (k : ℕ) (s : Sessions) → create k (remove k s) ≡ create k s
create-remove k s =
    look_injective _ _
      (λ i. ground (arith, look-create k i (remove k s), look-create k i s, look-remove k i s))

calls-create :
    (a : SessionMux) (k : ℕ) (frame : List ℕ) (h : FrameHeader)
    → decode frame ≡ some h
    → (s : Sessions)
    → calls a frame (create k s)
      ≡ (if k == h.stream_id && needs_session h.type then none else calls a frame s)
unfolding calls create with_manager
calls-create a k frame h e =
    Quot.ind (λ s. Call-set _ _)
      (λ (m, w). on_p2p_data-create_session (with_manager a m) k frame h w e)

calls-remove :
    (a : SessionMux) (k : ℕ) (frame : List ℕ) (h : FrameHeader)
    → decode frame ≡ some h
    → (s : Sessions)
    → calls a frame (remove k s)
      ≡ (if k == h.stream_id && needs_session h.type then none else calls a frame s)
unfolding calls remove with_manager
calls-remove a k frame h e =
    Quot.ind (λ s. Call-set _ _)
      (λ (m, w). on_p2p_data-remove_session (with_manager a m) k frame h e)

-- Up to the order of the map and the places of the objects: creations of sessions commute, removals
-- commute, a removal behind a creation of its stream id is the removal alone and commutes with every
-- other creation, a creation replaces what its stream id had, and a frame whose header is decoded,
-- unless it is a SYN or of another stream id, calls nothing behind a creation or a removal of its
-- stream id, and otherwise what it called before.
pub sessions_laws :
    (a : SessionMux) (frame : List ℕ) (h : FrameHeader) (j k : ℕ) (s : Sessions)
    → decode frame ≡ some h
    → (create j (create k s) ≡ create k (create j s))
      × (remove j (remove k s) ≡ remove k (remove j s))
      × (remove j (create k s) ≡ (if j == k then remove j s else create k (remove j s)))
      × (create k (create k s) ≡ create k s)
      × (create k (remove k s) ≡ create k s)
      × (calls a frame (create k s)
          ≡ (if k == h.stream_id && needs_session h.type then none else calls a frame s))
      × (calls a frame (remove k s)
          ≡ (if k == h.stream_id && needs_session h.type then none else calls a frame s))
sessions_laws a frame h j k s e = (
  create_comm j k s,
  remove_comm j k s,
  remove-create j k s,
  create_twice k s,
  create-remove k s,
  calls-create a k frame h e s,
  calls-remove a k frame h e s,
)
