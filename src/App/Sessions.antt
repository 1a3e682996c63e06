-- ===== src/App/Sessions.antt =====
-- Which browser sessions the SOCKS server knows.
use rtcvpn.Common.{
  ℕ, suc, ◌≤◌, ◌<◌, ◌≡◌, ◌∙◌, refl, ap, List, [], ◌∷◌, true, false, not, if◌then◌else◌, leb, ◌==◌,
  lookup, put, remove, values, lookup-put, lookup-remove, is_some, elem, arith, All, Bool-cases,
  inl, inr,
}
use rtcvpn.Server.Ids.{create_session_id}
use rtcvpn.App.SocksServer
use rtcvpn.App.SocksServer.{
  Server, Effect, Accepted, accepted, close_session, new_server, on_accept, on_session_close, stop,
  close_all,
}

-- A completion of async_accept, or a call of the close function of the session with an id.
pub data Event : Type 0 where
  accept : Accepted → Event
  session_closed : ℕ → Event

-- `closed` are the ids whose close function was called.
pub record World : Type 0 where
  pub server : Server
  pub closed : List ℕ

abbrev pub initial : World
initial = record { server = new_server; closed = [] }

-- Only a session that was made calls its close function.
unfoldable pub step : Event → World → World
unfolding on_accept on_session_close
step (accept r) w = record w { server = (on_accept r w.server).0 }
step (session_closed id) w =
    if leb id w.server.made
    then record w { server = on_session_close id w.server; closed = id ∷ w.closed }
    else w

unfoldable pub run : List Event → World → World
unfolding step
run [] w = w
run (e ∷ es) w = run es (step e w)

-- The sessions that stop closes.
abbrev pub closed_by : List Effect → List ℕ
closed_by [] = []
closed_by (close_session p ∷ es) = p ∷ closed_by es
closed_by (_ ∷ es) = closed_by es

-- The object of an entry is the one made for its id.
abbrev IsFiled : ℕ × ℕ → Type 0
IsFiled (id, p) = id ≡ suc p

put-IsFiled : (k a : ℕ) (t : List (ℕ × ℕ)) → k ≡ suc a → All IsFiled t → All IsFiled (put k a t)
put-IsFiled k a [] e h = (e, tt)
put-IsFiled k a ((j, b) ∷ t) e h = elim (Bool-cases (j == k)) [
  | inl y ↦ rw y (e, h.1)
  | inr n ↦ rw n (h.0, put-IsFiled k a t e h.1)
]

remove-IsFiled : (k : ℕ) (t : List (ℕ × ℕ)) → All IsFiled t → All IsFiled (remove k t)
remove-IsFiled k [] h = h
remove-IsFiled k ((j, b) ∷ t) h = elim (Bool-cases (j == k)) [
  | inl y ↦ rw y (remove-IsFiled k t h.1)
  | inr n ↦ rw n (h.0, remove-IsFiled k t h.1)
]

elem-values :
    (n : ℕ) (t : List (ℕ × ℕ)) → All IsFiled t → elem n (values t) ≡ is_some (lookup (suc n) t)
elem-values n [] h = refl
elem-values n ((j, b) ∷ t) h = ground (arith, elem-values n t h.1)

record Inv (w : World) : Type 0 where
  counted : w.server.made ≤ 65536 → w.server.id ≡ w.server.made
  filed : w.server.made ≤ 65536 → All IsFiled w.server.sessions
  bounded : (id : ℕ) → w.server.made < id → elem id w.closed ≡ false
  known :
      (n : ℕ)
      → w.server.made ≤ 65536
      → n < w.server.made
      → is_some (lookup (suc n) w.server.sessions) ≡ not (elem (suc n) w.closed)

create_session_id_next :
    (w : World) → Inv w → w.server.made < 65536 → create_session_id w.server.id ≡ suc w.server.made
unfolding create_session_id
create_session_id_next w v h = ground (arith, v.counted)

accepted-Inv : (w : World) → Inv w → Inv (step (accept accepted) w)
unfolding step on_accept
accepted-Inv w v = record {
  counted = λ h. create_session_id_next w v (omega (arith, h)) ∙ omega arith;
  filed = λ h.
      put-IsFiled (create_session_id w.server.id) w.server.made w.server.sessions
        (create_session_id_next w v (omega (arith, h))) (v.filed (omega (arith, h)));
  bounded = λ id h. v.bounded id (omega (arith, h));
  known = λ n h k.
      rw
        (
          lookup-put (create_session_id w.server.id) (suc n) w.server.made w.server.sessions,
          create_session_id_next w v (omega (arith, h)),
        )
        (ground (arith, v.known n, v.bounded (suc n)));
}

closed-Inv :
    (id : ℕ) (w : World)
    → Inv w
    → leb id w.server.made ≡ true
    → Inv (record w { server = on_session_close id w.server; closed = id ∷ w.closed })
unfolding on_session_close
closed-Inv id w v e = record {
  counted = v.counted;
  filed = λ h. remove-IsFiled id w.server.sessions (v.filed h);
  bounded = λ j h. ground (arith, v.bounded j h, e);
  known = λ n h k. rw (lookup-remove id (suc n) w.server.sessions) (ground (arith, v.known n h k));
}

step-Inv : (e : Event) (w : World) → Inv w → Inv (step e w)
unfolding step on_accept
step-Inv (accept accepted) w v = accepted-Inv w v
step-Inv (accept SocksServer.aborted) w v = v
step-Inv (accept SocksServer.failed) w v = v
step-Inv (session_closed id) w v = elim (Bool-cases (leb id w.server.made)) [
  | inl e ↦ rw e (closed-Inv id w v e)
  | inr e ↦ rw e v
]

run-Inv : (es : List Event) (w : World) → Inv w → Inv (run es w)
unfolding run
run-Inv [] w v = v
run-Inv (e ∷ es) w v = run-Inv es (step e w) (step-Inv e w v)

initial-Inv : Inv initial
initial-Inv = record {
  counted = λ _. refl;
  filed = λ _. tt;
  bounded = λ _ _. refl;
  known = λ n h k. absurd (omega (arith, k));
}

closed_by-close_all : (ps : List ℕ) → closed_by (close_all ps) ≡ ps
closed_by-close_all [] = refl
closed_by-close_all (p ∷ ps) = ap (◌∷◌ p) (closed_by-close_all ps)

closed_by-stop : (s : Server) → closed_by (stop s).1 ≡ values s.sessions
unfolding stop
closed_by-stop s = elim (Bool-cases s.acceptor_open) [
  | inl e ↦ rw e (closed_by-close_all (values s.sessions))
  | inr e ↦ rw e (closed_by-close_all (values s.sessions))
]

-- As long as no more than 65536 browsers were accepted, whatever was accepted, refused and closed
-- in whatever order: stop closes the session of an accepted browser exactly if its close function
-- was not called, where the n-th session, counted from 0, has the id n + 1.
pub stop_closes_open_sessions :
    (es : List Event) (n : ℕ)
    → let w = run es initial in
      w.server.made ≤ 65536
      → n < w.server.made
      → elem n (closed_by (stop w.server).1) ≡ not (elem (suc n) w.closed)
stop_closes_open_sessions es n h k =
    let v = run-Inv es initial initial-Inv in
    let w = run es initial in
    ap (elem n) (closed_by-stop w.server)
    ∙ elem-values n w.server.sessions (v.filed h)
    ∙ v.known n h k
