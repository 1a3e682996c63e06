-- ===== src/Client/Tunnel.antt =====
-- Socks5Session and the tunnel: data while connecting, and the ends of a connection.
use rtcvpn.Common.{
  ℕ, ◌≡◌, refl, ◌∙◌, arith, List, [], ◌∷◌, ◌++◌, true, false, some, append-nil, if◌then◌else◌,
}
use rtcvpn.Protocol.Types.{Phase, Protocol, connecting, connected, closed, http_plain}
use rtcvpn.Http.Parser.{Notice}
use rtcvpn.Client.{
  Socks5Session, Effect, tcp_close, send_data, send_fin, call_on_close, join, ◌>>=◌, ◌>>◌,
  on_session,
}
use rtcvpn.Client.Handlers.{process_data, consume_pending, is_http_phase, by_phase}
use rtcvpn.Client.Handlers.Rounds.{join-nil, consume_loop-stops}
use rtcvpn.Client.Callbacks.{
  p2p_synack, reply_synack, http_connected, p2p_close, close_session, on_tcp_closed, send_each,
}

abbrev pub sent : ℕ → Protocol → List (List ℕ) → List Effect
sent sid p [] = []
sent sid p (buf ∷ bufs) = send_data sid buf p ∷ sent sid p bufs

on_session_up :
    (s : Socks5Session) (sid : ℕ) (f : ℕ → Effect)
    → s.session ≡ some sid
    → on_session f s ≡ some (tt, s, f sid ∷ [])
on_session_up s sid f e = ground arith

send_each_sends :
    (s : Socks5Session) (sid : ℕ) (bufs : List (List ℕ))
    → s.session ≡ some sid
    → send_each bufs s ≡ some (tt, s, sent sid s.protocol bufs)
send_each_sends s sid [] e = refl
send_each_sends s sid (buf ∷ bufs) e =
    rw
      (
        on_session_up s sid (λ x. send_data x buf s.protocol) e,
        ◌>>◌,
        ◌>>=◌,
        send_each_sends s sid bufs e,
      )
      refl

pending_connecting :
    (s : Socks5Session) (fresh len : ℕ) (notices : List (Notice × ℕ)) (bytes : List ℕ)
    → s.phase ≡ connecting
    → consume_pending fresh notices bytes len s ≡ some (tt, s, [])
unfolding consume_pending
pending_connecting s fresh len notices bytes ph =
    rw (consume_loop-stops len fresh len 0 bytes s (rw ph refl), consume_pending, ◌>>=◌)
      (rw (phase_of s ph) refl)
  where
    phase_of : (t : Socks5Session) → t.phase ≡ connecting → is_http_phase t.phase ≡ false
    phase_of t e = rw e refl

-- Data that the browser sends while the tunnel is connecting is dropped.
pub process_data-connecting :
    (s : Socks5Session) (fresh len : ℕ) (notices : List (Notice × ℕ)) (bytes : List ℕ)
    → s.phase ≡ connecting
    → process_data fresh notices bytes len s ≡ some (tt, s, [])
unfolding process_data
process_data-connecting s fresh len notices bytes ph = by_phases s.phase ph
  where
    by_phases :
        (p : Phase)
        → p ≡ connecting
        → join [] (by_phase p fresh notices bytes len s) ≡ some (tt, s, [])
    by_phases connected e = cc
    by_phases closed e = cc
    by_phases _ e = join-nil _ ∙ pending_connecting s fresh len notices bytes ph

-- Data that the browser sends in phase Connecting is dropped: when a SYNACK of a plain HTTP
-- connection with a session then reports success, only what was kept before is sent to the server.
pub early_data_lost :
    (s : Socks5Session) (sid fresh len port : ℕ) (notices : List (Notice × ℕ)) (bytes ip : List ℕ)
    → s.phase ≡ connecting
    → s.session ≡ some sid
    → (process_data fresh notices bytes len >> p2p_synack ip port true http_plain) s
      ≡ some
          (tt, record s { pending_buf = []; phase = connected }, sent sid s.protocol s.pending_buf)
unfolding p2p_synack reply_synack http_connected
early_data_lost s sid fresh len port notices bytes ip ph up =
    rw (◌>>◌, ◌>>=◌, process_data-connecting s fresh len notices bytes ph)
      (join-nil _
        ∙ rw
            (
              send_each_sends s sid s.pending_buf up,
              ◌>>=◌,
              ◌>>◌,
              append-nil (sent sid s.protocol s.pending_buf),
            )
            (rw (append-nil (sent sid s.protocol s.pending_buf)) refl))

-- When the peer's FIN comes first, the TCP socket, if it is still there, is closed; its close event
-- then sends no FIN, and calls the owner's close callback if one is installed and the session was
-- not closed before.
pub peer_closes_first :
    (s : Socks5Session)
    → (p2p_close >> on_tcp_closed) s
      ≡ some (
        tt,
        record s { is_p2p_closed = true; is_closed = true; tcp_socket = false },
        (if s.tcp_socket then tcp_close ∷ [] else [])
            ++ (if s.is_closed
                then []
                else if s.on_close
                then call_on_close s.session_id ∷ []
                else []),
      )
unfolding p2p_close on_tcp_closed close_session
peer_closes_first s = ground arith

-- A connection with a session that neither side has closed, and with an owner's close callback,
-- sends one FIN and calls that callback once when the browser closes it; a FIN of the peer and a
-- second close event afterwards have no effect.
pub browser_closes_first :
    (s : Socks5Session) (sid : ℕ)
    → s.session ≡ some sid
    → s.is_p2p_closed ≡ false
    → s.is_closed ≡ false
    → s.on_close ≡ true
    → (on_tcp_closed >> p2p_close >> on_tcp_closed) s
      ≡ some (
        tt,
        record s { is_p2p_closed = true; is_closed = true; tcp_socket = false },
        send_fin sid s.protocol ∷ call_on_close s.session_id ∷ [],
      )
unfolding p2p_close on_tcp_closed close_session
browser_closes_first s sid up p c o = ground arith
