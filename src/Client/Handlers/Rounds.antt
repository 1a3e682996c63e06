-- ===== src/Client/Handlers/Rounds.antt =====
-- The loop of Socks5Session::consume_pending, a round at a time, and its fuel.
use Prim.Native.Nat.{ℕ, suc}
use rtcvpn.Common.{
  ◌+◌, ◌<◌, ◌≤◌, ◌≡◌, refl, ◌∙◌, ap, arith, List, [], ◌∷◌, ◌++◌, Bool, true, false, ◌&&◌, not,
  Option, none, some, lt→leb, le→leb, Bool-cases, inl, inr, append-nil,
}
use rtcvpn.Protocol.Types.{Phase, connected, closed}
use rtcvpn.Http.Parser.{Notice}
use rtcvpn.Client.{Socks5Session, Effect, tcp_close, join, ◌>>=◌}
use rtcvpn.Client.Handlers.{
  consume_loop, handle_phase, stops, is_closed_phase, is_http_phase, by_phase, process_data,
  consume_pending,
}

pub join-nil : {A : Type 0} (r : Option (A × Socks5Session × List Effect)) → join [] r ≡ r
join-nil none = refl
join-nil (some (a, s, es)) = refl

module _ (fuel fresh len consumed : ℕ) (bytes : List ℕ) (s : Socks5Session) where
  pub consume_loop-stops :
      stops s.phase ≡ true
      → consume_loop (suc fuel) fresh bytes len consumed s ≡ some (false, s, [])
  unfolding consume_loop
  consume_loop-stops e = rw e

  pub consume_loop_done :
      len ≤ consumed → consume_loop (suc fuel) fresh bytes len consumed s ≡ some (false, s, [])
  unfolding consume_loop
  consume_loop_done h = elim (Bool-cases (stops s.phase)) [
    | inl e ↦ rw e
    | inr e ↦ rw (e, le→leb len consumed h)
  ]

  module _ (t : Socks5Session) (k : ℕ) (es : List Effect) (goes : stops s.phase ≡ false)
      (left : consumed < len)
      (handled : handle_phase s.phase fresh bytes s ≡ some (some k, t, es)) where
    pub consume_loop_round :
        is_closed_phase t.phase ≡ false
        → consume_loop (suc fuel) fresh bytes len consumed s
          ≡ join es (consume_loop fuel fresh bytes len (consumed + k) t)
    unfolding consume_loop
    consume_loop_round open_phase =
        rw (goes, lt→leb len consumed left, ◌>>=◌, handled, open_phase)
          (join-nil _ ∙ ap (join es) (join-nil _))

    pub consume_loop_closes :
        is_closed_phase t.phase ≡ true
        → t.tcp_socket ≡ true
        → consume_loop (suc fuel) fresh bytes len consumed s ≡ some (true, t, es ++ tcp_close ∷ [])
    unfolding consume_loop
    consume_loop_closes closed_phase alive =
        rw (goes, lt→leb len consumed left, ◌>>=◌, handled, closed_phase) (ground arith)

-- A handler that returns has consumed at least one byte.
abbrev Consumes : Option (ℕ × Socks5Session × List Effect) → Type 0
Consumes none = Unit {0}
Consumes (some (k, _, _)) = 0 < k

module _ (fresh : ℕ) (bytes : List ℕ) (s : Socks5Session) where
  abbrev Advances : Option (Option ℕ × Socks5Session × List Effect) → Type 0
  Advances (some (some k, _, _)) = 0 < k
  Advances _ = Unit {0}

abbrev SameNext : ℕ → ℕ → ℕ → ℕ → List ℕ → Socks5Session → Type 0
SameNext fuel fresh len consumed bytes s =
    consume_loop (suc fuel) fresh bytes len consumed s
    ≡ consume_loop (suc (suc fuel)) fresh bytes len consumed s

module _ (s : Socks5Session) (fresh len : ℕ) (notices : List (Notice × ℕ)) (bytes : List ℕ)
    (open_phase : stops s.phase ≡ false) where
  -- In a phase that the loop handles, process_data is consume_pending.
  pub process_data_pending :
      process_data fresh notices bytes len s ≡ consume_pending fresh notices bytes len s
  unfolding process_data
  process_data_pending = by_phases s.phase open_phase
    where
      by_phases :
          (p : Phase)
          → stops p ≡ false
          → join [] (by_phase p fresh notices bytes len s)
            ≡ consume_pending fresh notices bytes len s
      by_phases closed e = cc
      by_phases connected e = cc
      by_phases _ e = join-nil _

  -- process_data where the loop does not end in the header phase.
  pub process_data_of_loop :
      (t : Socks5Session) (b : Bool) (es : List Effect)
      → consume_loop (suc len) fresh bytes len 0 s ≡ some (b, t, es)
      → (not b && is_http_phase t.phase) ≡ false
      → process_data fresh notices bytes len s ≡ some (tt, t, es)
  unfolding consume_pending
  process_data_of_loop t b es loop plain =
      process_data_pending ∙ rw (loop, consume_pending, ◌>>=◌, plain, append-nil es) refl
