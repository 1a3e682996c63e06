-- ===== src/Client/Request.antt =====
-- The SOCKS5 request, read in one piece in phase WaitSocksMethods.
use Prim.Native.Nat.{ℕ, suc}
use rtcvpn.Common.{
  ◌+◌, ◌*◌, ◌^◌, ◌%◌, ◌<◌, ◌≡◌, refl, ◌∙◌, arith, List, [], ◌∷◌, ◌++◌, false, some, length, ap,
  append-nil,
}
use rtcvpn.Protocol.Types.{
  Phase, Protocol, wait_greeting_version, wait_socks_methods, wait_socks_tcp, wait_socks_udp,
  wait_socks_ipv4, wait_socks_domain, wait_socks_udp_addr, connecting, closed, socks5_connect,
}
use rtcvpn.Http.Parser.{Notice}
use rtcvpn.Client.Text.{dotted}
use rtcvpn.Client.{
  Socks5Session, Effect, create_session, set_on_data, set_on_synack, set_on_close, send_syn, join,
}
use rtcvpn.Client.Handlers.{
  process_data, consume_loop, handle_socks_methods, handle_socks_tcp_udp, handle_socks_ipv4,
  handle_phase, stops, is_closed_phase,
}
use rtcvpn.Client.Handlers.Rounds.{
  join-nil, consume_loop_round, consume_loop-stops, process_data_of_loop,
}

-- The effects of request_remote_connect.
abbrev pub connect_effects : ℕ → List ℕ → ℕ → Protocol → List Effect
connect_effects fresh host port p =
    create_session fresh
    ∷ set_on_data fresh
    ∷ set_on_synack fresh
    ∷ set_on_close fresh
    ∷ send_syn fresh host port p
    ∷ []

abbrev pub connecting_to : Socks5Session → ℕ → List ℕ → ℕ → Protocol → Socks5Session
connecting_to s fresh host port p = record s {
  session = some fresh;
  target_host = host;
  target_port = port;
  phase = connecting;
  protocol = p;
}

opened : (p : Phase) → stops p ≡ false → is_closed_phase p ≡ false
opened closed e = cc
opened wait_greeting_version e = refl
opened wait_socks_methods e = refl
opened wait_socks_tcp e = refl
opened wait_socks_udp e = refl
opened wait_socks_ipv4 e = refl
opened wait_socks_domain e = refl
opened wait_socks_udp_addr e = refl
opened _ e = refl

-- The rounds that read the address, where the last one asks for a remote connection.
module _ (fresh extra : ℕ) (bytes : List ℕ) (t u v : Socks5Session) (es : List Effect)
    (names : handle_phase t.phase fresh bytes t ≡ some (some 2, u, []))
    (ends : handle_phase u.phase fresh bytes u ≡ some (some extra, v, es))
    (to_address : stops t.phase ≡ false) (to_host : stops u.phase ≡ false)
    (to_connecting : v.phase ≡ connecting) where
  pub address_rounds :
      (n len consumed : ℕ)
      → consumed + 2 < len
      → consume_loop (suc (suc (suc n))) fresh bytes len consumed t ≡ some (false, v, es)
  address_rounds n len consumed h =
      consume_loop_round (suc (suc n)) fresh len consumed bytes t u 2 [] to_address (omega arith)
        names (opened u.phase to_host)
      ∙ join-nil _
      ∙ consume_loop_round (suc n) fresh len (consumed + 2) bytes u v extra es to_host (omega arith)
          ends (rw to_connecting refl)
      ∙ ap (join es)
          (consume_loop-stops n fresh len (consumed + 2 + extra) bytes v (rw to_connecting refl))
      ∙ rw (append-nil es) refl

  -- In phase WaitSocksTCP or WaitSocksUDP.
  pub two_rounds :
      (notices : List (Notice × ℕ)) (len : ℕ)
      → 2 < len
      → process_data fresh notices bytes len t ≡ some (tt, v, es)
  two_rounds notices len h =
      process_data_of_loop t fresh len notices bytes to_address v false es (by_len len h)
        (rw to_connecting refl)
    where
      by_len : (n : ℕ) → 2 < n → consume_loop (suc n) fresh bytes n 0 t ≡ some (false, v, es)
      by_len (suc (suc n)) h = address_rounds n (suc (suc n)) 0 (omega arith)
      by_len _ h = absurd (omega arith)

  -- In phase WaitSocksMethods.
  pub three_rounds :
      (notices : List (Notice × ℕ)) (len : ℕ) (s : Socks5Session)
      → s.phase ≡ wait_socks_methods
      → handle_phase s.phase fresh bytes s ≡ some (some 2, t, [])
      → 4 < len
      → process_data fresh notices bytes len s ≡ some (tt, v, es)
  three_rounds notices len s from_methods asks h =
      process_data_of_loop s fresh len notices bytes (rw from_methods refl) v false es
        (by_len len h) (rw to_connecting refl)
    where
      by_len : (n : ℕ) → 4 < n → consume_loop (suc n) fresh bytes n 0 s ≡ some (false, v, es)
      by_len (suc (suc (suc n))) h =
          consume_loop_round (suc (suc (suc n))) fresh (suc (suc (suc n))) 0 bytes s t 2 []
            (rw from_methods refl) (omega arith) asks (opened t.phase to_address)
          ∙ join-nil _
          ∙ address_rounds n (suc (suc (suc n))) 2 (omega arith)
      by_len _ h = absurd (omega arith)

-- In phase WaitSocksMethods, when more than four bytes were received, a request with the connect
-- command and an IPv4 address leads to one new session with its three callbacks and one SYN for the
-- dotted address and the big-endian port, and to phase Connecting. The address and the port are
-- read from the receive buffer whether or not so many bytes were received.
pub process_data-connect_ipv4 :
    (s : Socks5Session) (fresh len : ℕ) (notices : List (Notice × ℕ)) (ver rsv a b c d hi lo : ℕ)
    (rest : List ℕ)
    → s.phase ≡ wait_socks_methods
    → 4 < len
    → process_data fresh notices (ver ∷ 1 ∷ rsv ∷ 1 ∷ a ∷ b ∷ c ∷ d ∷ hi ∷ lo ∷ rest) len s
      ≡ some (
        tt,
        connecting_to s fresh (dotted a b c d) ((hi * 2 ^ 8 + lo) % 2 ^ 16) socks5_connect,
        connect_effects fresh (dotted a b c d) ((hi * 2 ^ 8 + lo) % 2 ^ 16) socks5_connect,
      )
unfolding handle_socks_methods handle_socks_tcp_udp handle_socks_ipv4
process_data-connect_ipv4 s fresh len notices ver rsv a b c d hi lo rest ph h =
    three_rounds fresh 6 (ver ∷ 1 ∷ rsv ∷ 1 ∷ a ∷ b ∷ c ∷ d ∷ hi ∷ lo ∷ rest)
      (record s { phase = wait_socks_tcp; protocol = socks5_connect })
      (record s { phase = wait_socks_ipv4; protocol = socks5_connect })
      (connecting_to s fresh (dotted a b c d) ((hi * 2 ^ 8 + lo) % 2 ^ 16) socks5_connect)
      (connect_effects fresh (dotted a b c d) ((hi * 2 ^ 8 + lo) % 2 ^ 16) socks5_connect) refl refl
      refl refl refl notices len s ph (rw ph refl) h

-- The bytes of a request for a host by its name.
abbrev pub domain_request : ℕ → ℕ → List ℕ → ℕ → ℕ → List ℕ → List ℕ
domain_request ver rsv host hi lo rest = ver ∷ 1 ∷ rsv ∷ 3 ∷ length host ∷ host ++ (hi ∷ lo ∷ rest)
