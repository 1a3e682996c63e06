-- ===== src/Server/Process/Reaping.antt =====
-- The timer that removes a client.
use rtcvpn.Common.{
  ℕ, ◌+◌, ◌≡◌, ◌∙◌, refl, List, [], ◌∷◌, ◌++◌, Bool, true, false, none, some, if◌then◌else◌, lookup,
  remove, arith, Option-cases, inl, inr,
}
use rtcvpn.P2p
use rtcvpn.Server
use rtcvpn.Server.{TunnelSession}
use rtcvpn.Server.Process.{
  Socks5Session, Effect, call_close, start_timer, of_tunnel, of_tunnels, on_target_closed, on_state,
  on_timer, close_tunnels, new_session,
}
use rtcvpn.Server.Process.Tunnels.{stop_all, stop_effects}
use rtcvpn.Server.Process.Removal.{keys, remove_each, remove_absent, emptied}
use rtcvpn.Server.Process.Life.{
  Event, target_closed, state, tick, step, run, IsWell, Well-some, run-Well, step-Well,
  on_target_closed-remove, on_state_closed, new_session-IsWell,
}

abbrev pub count_close : List Effect → ℕ
count_close [] = 0
count_close (call_close _ ∷ es) = 1 + count_close es
count_close (_ ∷ es) = count_close es

-- The targets of these tunnels close.
abbrev pub targets_close : List ℕ → List Event
targets_close [] = []
targets_close (sid ∷ sids) = target_closed sid ∷ targets_close sids

count_close-append :
    (xs ys : List Effect) → count_close (xs ++ ys) ≡ count_close xs + count_close ys
count_close-append [] ys = omega arith
count_close-append (call_close _ ∷ xs) ys = omega (arith, count_close-append xs ys)
count_close-append (of_tunnel _ ∷ xs) ys = count_close-append xs ys
count_close-append (start_timer _ ∷ xs) ys = count_close-append xs ys

count_close-of_tunnels : (es : List Server.Effect) → count_close (of_tunnels es) ≡ 0
count_close-of_tunnels [] = refl
count_close-of_tunnels (_ ∷ es) = count_close-of_tunnels es

count_close-stop_effects : (table : List (ℕ × TunnelSession)) → count_close (stop_effects table) ≡ 0
count_close-stop_effects [] = refl
count_close-stop_effects (_ ∷ table) = count_close-stop_effects table

run_cons :
    (e : Event) (es : List Event) (s t u : Socks5Session) (now later : List Effect)
    → step e s ≡ some (t, now)
    → run es t ≡ some (u, later)
    → run (e ∷ es) s ≡ some (u, now ++ later)
unfolding run
run_cons e es s t u now later h k = rw (h, k) refl

unknown_target :
    (sid : ℕ) (s : Socks5Session)
    → lookup sid s.tunnel_sessions ≡ none
    → on_target_closed sid s ≡ some (s, [])
unfolding on_target_closed
unknown_target sid s e = ground (arith, e)

-- A target that closes takes its tunnel out of the table and does not end the client.
target_closed_removes :
    (sid : ℕ) (s : Socks5Session)
    → IsWell s
    → (es : List Effect) × (step (target_closed sid) s
        ≡ some (record s { tunnel_sessions = remove sid s.tunnel_sessions }, es))
      × (count_close es ≡ 0)
unfolding step
target_closed_removes sid s w = elim (Option-cases (lookup sid s.tunnel_sessions)) [
  | inl e ↦ ([], absent e, refl)
  | inr (t, e) ↦ (
    of_tunnels (Server.on_target_closed t).1,
    on_target_closed-remove sid s t w e,
    count_close-of_tunnels (Server.on_target_closed t).1,
  )
]
  where
    absent :
        lookup sid s.tunnel_sessions ≡ none
        → on_target_closed sid s
          ≡ some (record s { tunnel_sessions = remove sid s.tunnel_sessions }, [])
    absent e = rw (remove_absent sid s.tunnel_sessions e) (unknown_target sid s e)

abbrev gone : Socks5Session → Socks5Session
gone s = record s { tunnel_sessions = []; waiting = false; timer = false }

abbrev closes : Bool → ℕ
closes b = if b then 1 else 0

last_tick :
    (s : Socks5Session)
    → s.waiting ≡ true
    → s.tunnel_sessions ≡ []
    → (es : List Effect) × (run (tick ∷ []) s ≡ some (gone s, es))
      × (count_close es ≡ closes s.close_cb)
unfolding run step on_timer
last_tick s w e =
    ((if s.close_cb then call_close s.session_id ∷ [] else []), ground (arith, w, e), ground arith)

targets_then_tick :
    (ks : List ℕ) (s : Socks5Session)
    → IsWell s
    → s.waiting ≡ true
    → remove_each ks s.tunnel_sessions ≡ []
    → (es : List Effect) × (run (targets_close ks ++ tick ∷ []) s ≡ some (gone s, es))
      × (count_close es ≡ closes s.close_cb)
targets_then_tick [] s w on e = last_tick s on e
targets_then_tick (k ∷ ks) s w on e =
    let (now, here, none_now) = target_closed_removes k s w in
    let t = record s { tunnel_sessions = remove k s.tunnel_sessions } in
    let (later, rest, one) =
      targets_then_tick ks t
        (Well-some (step (target_closed k) s) t now here (step-Well (target_closed k) s w)) on e in
    (
      now ++ later,
      run_cons (target_closed k) (targets_close ks ++ tick ∷ []) s t (gone s) now later here rest,
      count_close-append now later ∙ omega (arith, none_now, one),
    )

on_state_step :
    (s : Socks5Session)
    → IsWell s
    → s.timer ≡ true
    → step (state P2p.closed) s
      ≡ some (
        record s { waiting = true; tunnel_sessions = stop_all s.tunnel_sessions },
        start_timer 1000 ∷ stop_effects s.tunnel_sessions,
      )
unfolding step
on_state_step s w t = on_state_closed s w t

-- Whatever a client did since it was accepted, its timer not yet gone: once its controller reports
-- the close, the targets of all tunnels of its table close, in the order of the table, and the
-- wait then ends, the client has no tunnels and no timer, nothing has faulted, and the function
-- that removes it was called once.
pub closed_client_is_removed :
    (id : ℕ) (password : List ℕ) (es : List Event) (s : Socks5Session) (before : List Effect)
    → run es (new_session id password) ≡ some (s, before)
    → s.timer ≡ true
    → s.close_cb ≡ true
    → (t : Socks5Session) × (effects : List Effect) × (run
          (state P2p.closed ∷ targets_close (keys s.tunnel_sessions) ++ tick ∷ [])
          s
        ≡ some (t, effects))
      × (t.tunnel_sessions ≡ [])
      × (t.timer ≡ false)
      × (count_close effects ≡ 1)
closed_client_is_removed id password es s before reached timed bound =
    let w =
      Well-some (run es (new_session id password)) s before reached
        (run-Well es (new_session id password) (new_session-IsWell id password)) in
    let ks = keys s.tunnel_sessions in
    let u = record s { waiting = true; tunnel_sessions = stop_all s.tunnel_sessions } in
    let here = on_state_step s w timed in
    let v =
      Well-some (step (state P2p.closed) s) u (start_timer 1000 ∷ stop_effects s.tunnel_sessions)
        here (step-Well (state P2p.closed) s w) in
    let single : closes s.close_cb ≡ 1 = rw bound refl in
    let (later, rest, one) = targets_then_tick ks u v refl (emptied s.tunnel_sessions) in
    (
      gone u,
      (start_timer 1000 ∷ stop_effects s.tunnel_sessions) ++ later,
      run_cons (state P2p.closed) (targets_close ks ++ tick ∷ []) s u (gone u) _ later here rest,
      refl,
      refl,
      omega (
        arith,
        count_close-append (stop_effects s.tunnel_sessions) later,
        count_close-stop_effects s.tunnel_sessions,
        one,
        single,
      ),
    )

-- A client without tunnels whose timer is there: two reports of a close before the wait ends are
-- one removal. If the wait ends between them, the second report follows a null pointer.
pub late_report_faults :
    (s : Socks5Session)
    → s.tunnel_sessions ≡ []
    → s.timer ≡ true
    → s.close_cb ≡ true
    → (run (state P2p.closed ∷ state P2p.closed ∷ tick ∷ []) s
        ≡ some (
          record s { tunnel_sessions = []; timer = false; waiting = false },
          start_timer 1000 ∷ start_timer 1000 ∷ call_close s.session_id ∷ [],
        ))
      × (run (state P2p.closed ∷ tick ∷ state P2p.closed ∷ []) s ≡ none)
unfolding run step on_state on_timer close_tunnels
late_report_faults s e t b = ground (arith, e, t, b)
