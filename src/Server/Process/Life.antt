-- ===== src/Server/Process/Life.antt =====
-- The life of a client at the server, and what stays true of its table and its timer.
use rtcvpn.Common.{
  ℕ, ◌≡◌, refl, List, [], ◌∷◌, ◌++◌, true, none, some, if◌then◌else◌, ◌>>=◌, lookup, put, remove,
  arith, All, Bool-cases, Option-cases, inl, inr,
}
use rtcvpn.Protocol.Types.{Protocol}
use rtcvpn.P2p
use rtcvpn.P2p.{State}
use rtcvpn.Server
use rtcvpn.Server.{TunnelSession}
use rtcvpn.Server.Process.{
  Socks5Session, Effect, Result, start_timer, of_tunnels, on_syn, on_target_closed, on_fin,
  on_state, on_timer, new_session,
}
use rtcvpn.Server.Process.Tunnels.{
  IsOpen, put-IsOpen, remove-IsOpen, lookup-IsOpen, on_syn-IsOpen, stop_all, stop_effects,
  stop_all-IsOpen, close_tunnels-stop_all, erase_closed-on_target_closed, remove-put, close-IsOpen,
  stopped, stopped-IsOpen,
}

-- A frame of the peer, an event of a target, a state of the controller, or the end of the wait.
pub data Event : Type 0 where
  syn : ℕ → List ℕ → ℕ → Protocol → Event
  fin : ℕ → Event
  target_closed : ℕ → Event
  state : State → Event
  tick : Event

unfoldable pub step : Event → Socks5Session → Result
step (syn sid host port p) s = on_syn sid host port p s
step (fin sid) s = on_fin sid s
step (target_closed sid) s = on_target_closed sid s
step (state st) s = on_state st s
step tick s = if s.waiting then on_timer s else some (s, [])

unfoldable pub run : List Event → Socks5Session → Result
run [] s = some (s, [])
run (e ∷ es) s = do (t, now) ← step e s; (u, later) ← run es t; some (u, now ++ later)

-- The tunnels of the table are open, and a wait has its timer.
pub record IsWell (s : Socks5Session) : Type 0 where
  pub open_tunnels : All IsOpen s.tunnel_sessions
  pub timed : s.waiting ≡ true → s.timer ≡ true

pub new_session-IsWell : (id : ℕ) (password : List ℕ) → IsWell (new_session id password)
new_session-IsWell id password = record { open_tunnels = tt; timed = λ _. refl }

abbrev pub Well : Result → Type 0
Well none = Unit
Well (some (s, _)) = IsWell s

pub on_target_closed-remove :
    (sid : ℕ) (s : Socks5Session) (t : TunnelSession)
    → IsWell s
    → lookup sid s.tunnel_sessions ≡ some t
    → on_target_closed sid s
      ≡ some (
        record s { tunnel_sessions = remove sid s.tunnel_sessions },
        of_tunnels (Server.on_target_closed t).1,
      )
unfolding on_target_closed
on_target_closed-remove sid s t w e =
    let o = lookup-IsOpen sid s.tunnel_sessions t w.open_tunnels e in
    let u = (Server.on_target_closed t).0 in
    ground (
      arith,
      e,
      erase_closed-on_target_closed sid t (put sid u s.tunnel_sessions) o,
      remove-put sid u s.tunnel_sessions,
    )

on_target_closed-Well : (sid : ℕ) (s : Socks5Session) → IsWell s → Well (on_target_closed sid s)
unfolding on_target_closed
on_target_closed-Well sid s w = elim (Option-cases (lookup sid s.tunnel_sessions)) [
  | inl e ↦ ground (arith, e)
  | inr (t, e) ↦ rw (on_target_closed-remove sid s t w e) (record {
    open_tunnels = remove-IsOpen sid s.tunnel_sessions w.open_tunnels;
    timed = w.timed;
  })
]

on_fin-Well : (sid : ℕ) (s : Socks5Session) → IsWell s → Well (on_fin sid s)
unfolding on_fin
on_fin-Well sid s w = elim (Option-cases (lookup sid s.tunnel_sessions)) [
  | inl e ↦ ground (arith, e)
  | inr (t, e) ↦
      let o = lookup-IsOpen sid s.tunnel_sessions t w.open_tunnels e in
      let p =
        put-IsOpen sid (stopped t) s.tunnel_sessions (stopped-IsOpen sid t o) w.open_tunnels in
      ground (arith, e, close-IsOpen sid t o, p)
]

on_syn-Well :
    (sid : ℕ) (host : List ℕ) (port : ℕ) (p : Protocol) (s : Socks5Session)
    → IsWell s
    → Well (on_syn sid host port p s)
unfolding on_syn
on_syn-Well sid host port p s w = elim (Option-cases (Server.on_syn sid host port p)) [
  | inl e ↦ ground (arith, e)
  | inr ((t, es), e) ↦
      let o =
        put-IsOpen sid t s.tunnel_sessions (on_syn-IsOpen sid host port p t es e) w.open_tunnels in
      ground (arith, e, o)
]

pub on_state_closed :
    (s : Socks5Session)
    → IsWell s
    → s.timer ≡ true
    → on_state P2p.closed s
      ≡ some (
        record s { waiting = true; tunnel_sessions = stop_all s.tunnel_sessions },
        start_timer 1000 ∷ stop_effects s.tunnel_sessions,
      )
unfolding on_state
on_state_closed s w t = rw (t, close_tunnels-stop_all s.tunnel_sessions w.open_tunnels) refl

on_state-Well : (st : State) (s : Socks5Session) → IsWell s → Well (on_state st s)
unfolding on_state
on_state-Well P2p.connected s w = w
on_state-Well P2p.closed s w = elim (Bool-cases s.timer) [
  | inl t ↦
      rw (on_state_closed s w t)
        (record { open_tunnels = stop_all-IsOpen s.tunnel_sessions w.open_tunnels; timed = λ _. t })
  | inr n ↦ ground (arith, n)
]

on_timer-Well : (s : Socks5Session) → IsWell s → Well (on_timer s)
unfolding on_timer
on_timer-Well s w = ground (arith, w)

pub step-Well : (e : Event) (s : Socks5Session) → IsWell s → Well (step e s)
unfolding step
step-Well (syn sid host port p) s w = on_syn-Well sid host port p s w
step-Well (fin sid) s w = on_fin-Well sid s w
step-Well (target_closed sid) s w = on_target_closed-Well sid s w
step-Well (state st) s w = on_state-Well st s w
step-Well tick s w = elim (Bool-cases s.waiting) [
  | inl e ↦ simp e (on_timer-Well s w)
  | inr e ↦ simp e w
]

pub Well-some :
    (r : Result) (s : Socks5Session) (es : List Effect) → r ≡ some (s, es) → Well r → IsWell s
Well-some none s es e w = cc
Well-some (some (t, fs)) s es e w = ground (arith, e, w)

Well-bind :
    (r : Result) (now : List Effect)
    → Well r
    → Well (r >>= λ (x : Socks5Session × List Effect). some (x.0, now ++ x.1))
Well-bind none now w = w
Well-bind (some (t, later)) now w = w

pub run-Well : (es : List Event) (s : Socks5Session) → IsWell s → Well (run es s)
unfolding run
run-Well [] s w = w
run-Well (e ∷ es) s w = elim (Option-cases (step e s)) [
  | inl n ↦ rw n tt
  | inr ((t, now), here) ↦
      rw here (
        Well-bind (run es t) now
          (run-Well es t (Well-some (step e s) t now here (step-Well e s w))))
]
