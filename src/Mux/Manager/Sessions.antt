-- ===== src/Mux/Manager/Sessions.antt =====
-- The session map and its objects: what each operation does to the session of every stream id.
use mathlib.Core.Option
use rtcvpn.Common.{
  ◌∙◌, ℕ, zero, suc, ◌≡◌, ◌≢◌, refl, arith, List, [], ◌∷◌, ◌++◌, none, some, ◌==◌, if◌then◌else◌,
  length, get_elem?, Option-cases, inl, inr, Bool-cases,
}
use rtcvpn.Mux.Manager.{
  Session, SessionManager, new_session, find, insert, erase, update_at, gen_stream_id, find_session,
  create_session, create_session_any, remove_session, update_session, session_of, empty_manager,
}

pub find-insert :
    (k j p : ℕ) (m : List (ℕ × ℕ)) → find j (insert k p m) ≡ (if k == j then some p else find j m)
unfolding find insert
find-insert k j p [] = refl
find-insert k j p ((i, q) ∷ m) = ground (arith, find-insert k j p m)

pub find-erase :
    (k j : ℕ) (m : List (ℕ × ℕ)) → find j (erase k m) ≡ (if k == j then none else find j m)
unfolding find erase
find-erase k j [] = ground arith
find-erase k j ((i, q) ∷ m) = ground (arith, find-erase k j m)

-- A pointer in the map leads to an object, and that object carries the id it is filed under.
pub record IsWellFormed (m : SessionManager) : Type 0 where
  pub filed :
      (k p : ℕ)
      → find k m.sessions ≡ some p
      → (s : Session) × (get_elem? m.objects p ≡ some s) × (s.stream_id ≡ k)

get_elem?-append_left {ℓ} :
    {A : Type ℓ} (xs ys : List A) (i : ℕ) {a : A}
    → get_elem? xs i ≡ some a
    → get_elem? (xs ++ ys) i ≡ some a
get_elem?-append_left [] ys i e = cc
get_elem?-append_left (x ∷ xs) ys zero e = e
get_elem?-append_left (x ∷ xs) ys (suc i) e = get_elem?-append_left xs ys i e

get_elem?-append_end {ℓ} :
    {A : Type ℓ} (xs : List A) (a : A) → get_elem? (xs ++ a ∷ []) (length xs) ≡ some a
get_elem?-append_end [] a = refl
get_elem?-append_end (x ∷ xs) a = get_elem?-append_end xs a

pub empty-IsWellFormed : IsWellFormed empty_manager
unfolding find
empty-IsWellFormed = record { filed = λ k p e. cc }

pub create_session-IsWellFormed :
    (m : SessionManager) (sid : ℕ) → IsWellFormed m → IsWellFormed (create_session m sid).0
unfolding create_session
create_session-IsWellFormed m sid w = record { filed = go }
  where
    go :
        (k p : ℕ)
        → find k (insert sid (length m.objects) m.sessions) ≡ some p
        → (s : Session) × (get_elem? (m.objects ++ new_session sid ∷ []) p ≡ some s)
          × (s.stream_id ≡ k)
    go k p e = elim (Bool-cases (sid == k)) [
      | inl same ↦
          let at_end : p ≡ length m.objects =
            ground (arith, find-insert sid k (length m.objects) m.sessions) in
          (
            new_session sid,
            rw at_end (get_elem?-append_end m.objects (new_session sid)),
            ground arith,
          )
      | inr other ↦
          let (s, at, key) =
            w.filed k p (ground (arith, find-insert sid k (length m.objects) m.sessions)) in
          (s, get_elem?-append_left m.objects _ p at, key)
    ]

pub remove_session-IsWellFormed :
    (m : SessionManager) (sid : ℕ) → IsWellFormed m → IsWellFormed (remove_session m sid)
unfolding remove_session
remove_session-IsWellFormed m sid w = record {
  filed = λ k p e. w.filed k p (ground (arith, find-erase sid k m.sessions));
}

-- A new session is found under its id with no callback installed, and every other session is as it was.
pub session_of-create_session :
    (m : SessionManager) (sid j : ℕ)
    → IsWellFormed m
    → session_of (create_session m sid).0 j
      ≡ (if sid == j then some (new_session sid) else session_of m j)
unfolding session_of create_session
session_of-create_session m sid j w = elim (Bool-cases (sid == j)) [
  | inl same ↦ ground (
    arith,
    find-insert sid j (length m.objects) m.sessions,
    get_elem?-append_end m.objects (new_session sid),
  )
  | inr other ↦ elim (Option-cases (find j m.sessions)) [
    | inl absent ↦ ground (arith, find-insert sid j (length m.objects) m.sessions)
    | inr (p, here) ↦
        let (s, at, key) = w.filed j p here in
        ground (
          arith,
          find-insert sid j (length m.objects) m.sessions,
          get_elem?-append_left m.objects (new_session sid ∷ []) p at,
        )
  ]
]

pub session_of-remove_session :
    (m : SessionManager) (sid j : ℕ)
    → session_of (remove_session m sid) j ≡ (if sid == j then none else session_of m j)
unfolding session_of remove_session
session_of-remove_session m sid j = ground (arith, find-erase sid j m.sessions)

-- A generated id is no key of the map.
pub gen_stream_id_free :
    (draws : List ℕ) (m : SessionManager) (id : ℕ)
    → gen_stream_id draws m ≡ some id
    → find_session m id ≡ none
unfolding gen_stream_id find_session
gen_stream_id_free [] m id e = cc
gen_stream_id_free (d ∷ draws) m id e = ground (arith, gen_stream_id_free draws m id)

-- The search for a stream id gives a result if the generator's draws contain one that is not in
-- use.
pub gen_stream_id_total :
    (before after : List ℕ) (d : ℕ) (m : SessionManager)
    → find_session m d ≡ none
    → gen_stream_id (before ++ d ∷ after) m ≢ none
unfolding gen_stream_id find_session
gen_stream_id_total [] after d m free = ground arith
gen_stream_id_total (b ∷ before) after d m free =
    ground (arith, gen_stream_id_total before after d m free)

get_elem?-update_at :
    (f : Session → Session) (xs : List Session) (p q : ℕ)
    → get_elem? (update_at p f xs) q
      ≡ (if p == q then Option.map f (get_elem? xs q) else get_elem? xs q)
unfolding update_at
get_elem?-update_at f [] p q = ground arith
get_elem?-update_at f (x ∷ xs) zero zero = refl
get_elem?-update_at f (x ∷ xs) zero (suc q) = ground arith
get_elem?-update_at f (x ∷ xs) (suc p) zero = ground arith
get_elem?-update_at f (x ∷ xs) (suc p) (suc q) = ground (arith, get_elem?-update_at f xs p q)

pub update_session-IsWellFormed :
    (m : SessionManager) (f : Session → Session) (p : ℕ)
    → ((s : Session) → (f s).stream_id ≡ s.stream_id)
    → IsWellFormed m
    → IsWellFormed (update_session m p f)
unfolding update_session
update_session-IsWellFormed m f p keeps w = record {
  filed = λ k q e.
      let (s, at, key) = w.filed k q e in
      elim (Bool-cases (p == q)) [
        | inl y ↦ (f s, ground (arith, get_elem?-update_at f m.objects p q), keeps s ∙ key)
        | inr y ↦ (s, ground (arith, get_elem?-update_at f m.objects p q), key)
      ];
}

-- A write through the pointer of a session changes that session and no other.
pub session_of-update_session :
    (m : SessionManager) (f : Session → Session) (sid j p : ℕ)
    → find_session m sid ≡ some p
    → IsWellFormed m
    → session_of (update_session m p f) j
      ≡ (if sid == j then Option.map f (session_of m j) else session_of m j)
unfolding session_of update_session find_session
session_of-update_session m f sid j p here w = elim (Option-cases (find j m.sessions)) [
  | inl absent ↦ ground arith
  | inr (q, there) ↦
      let (s, at, key) = w.filed sid p here in
      let (t, at', key') = w.filed j q there in ground (arith, get_elem?-update_at f m.objects p q)
]

pub session_of-update_here :
    (m : SessionManager) (f : Session → Session) (sid p : ℕ)
    → find_session m sid ≡ some p
    → session_of (update_session m p f) sid ≡ Option.map f (session_of m sid)
unfolding session_of update_session find_session
session_of-update_here m f sid p here = ground (arith, get_elem?-update_at f m.objects p p)

pub session_of-absent :
    (m : SessionManager) (sid : ℕ) → find_session m sid ≡ none → session_of m sid ≡ none
unfolding session_of
session_of-absent m sid absent = rw absent refl

-- In a well-formed manager, a session created under a generated stream id replaces none: every
-- session is found as before.
pub create_session_any-keeps :
    (draws : List ℕ) (m n : SessionManager) (p j : ℕ) (s : Session)
    → IsWellFormed m
    → create_session_any draws m ≡ some (n, p)
    → session_of m j ≡ some s
    → session_of n j ≡ some s
unfolding create_session_any session_of find_session
create_session_any-keeps draws m n p j s w made found =
    elim (Option-cases (gen_stream_id draws m)) [
      | inl out ↦ ground arith
      | inr (sid, e) ↦
          ground (arith, session_of-create_session m sid j w, gen_stream_id_free draws m sid e)
    ]
