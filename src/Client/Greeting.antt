-- ===== src/Client/Greeting.antt =====
-- The SOCKS5 greeting, or the first bytes of an HTTP proxy request, in phase WaitGreetingVersion.
use Prim.Native.Nat.{ℕ, zero, suc}
use rtcvpn.Common.{
  ◌+◌, ◌*◌, ◌^◌, ◌%◌, ◌<◌, ◌≤◌, ◌≡◌, ◌≢◌, refl, ◌∙◌, ap, arith, List, [], ◌∷◌, ◌++◌, true, false,
  some, ◌==◌, if◌then◌else◌, take, inl, inr, Bool-cases, eq→==,
}
use rtcvpn.Protocol.Types.{
  Phase, Protocol, wait_greeting_version, wait_socks_methods, wait_socks_tcp, wait_socks_udp,
  wait_socks_ipv4, wait_http_request_headers, closed, socks5_connect, udp_associate,
}
use rtcvpn.Http.Parser.{Notice}
use rtcvpn.Client.Text.{dotted}
use rtcvpn.Client.{Socks5Session, Effect, tcp_send, tcp_close, M, join, ◌>>=◌, ◌>>◌, modify}
use rtcvpn.Client.Handlers.{
  process_data, consume_pending, consume_loop, handle_greeting_version, handle_socks_methods,
  handle_socks_tcp_udp, handle_socks_ipv4, handle_phase, is_closed_phase, is_http_phase,
  socks_reply, on_request_notices,
}
use rtcvpn.Client.Handlers.Rounds.{
  join-nil, consume_loop_round, consume_loop_closes, consume_loop_done, consume_loop-stops,
  process_data_of_loop, process_data_pending,
}
use rtcvpn.Client.Request.{connecting_to, connect_effects, two_rounds}

abbrev greeted : Socks5Session → Socks5Session
greeted s = record s { phase = wait_socks_methods }

abbrev no_authentication : Effect
no_authentication = tcp_send (0x05 ∷ 0x00 ∷ [])

module _ (s : Socks5Session) (fresh : ℕ) (notices : List (Notice × ℕ)) (n : ℕ) (rest : List ℕ)
    (waiting : s.phase ≡ wait_greeting_version) (alive : s.tcp_socket ≡ true) where
  first_round :
      handle_phase s.phase fresh (5 ∷ n ∷ rest) s
      ≡ some (some 2, record s { phase = wait_socks_methods }, tcp_send (0x05 ∷ 0x00 ∷ []) ∷ [])
  unfolding handle_greeting_version
  first_round = rw (waiting, alive) refl

  -- A greeting that arrives in two bytes is answered with "no authentication".
  pub process_data-greeting_two :
      process_data fresh notices (5 ∷ n ∷ rest) 2 s
      ≡ some (tt, record s { phase = wait_socks_methods }, tcp_send (0x05 ∷ 0x00 ∷ []) ∷ [])
  process_data-greeting_two =
      process_data_of_loop s fresh 2 notices (5 ∷ n ∷ rest) (rw waiting refl) (greeted s) false
        (no_authentication ∷ [])
        (consume_loop_round 2 fresh 2 0 (5 ∷ n ∷ rest) s (greeted s) 2 (no_authentication ∷ [])
            (rw waiting refl) (omega arith) first_round refl
          ∙ ap (join (no_authentication ∷ []))
              (consume_loop_done 1 fresh 2 2 (5 ∷ n ∷ rest) (greeted s) (omega arith)))
        refl

  module _ (p : Phase) (q : Protocol)
      (asks : handle_phase wait_socks_methods fresh (5 ∷ n ∷ rest) (greeted s)
        ≡ some (some 2, record s { phase = p; protocol = q }, []))
      (goes : is_closed_phase p ≡ false) (plain : is_http_phase p ≡ false) where
    counted :
        (len : ℕ)
        → 2 < len
        → len ≤ 4
        → process_data fresh notices (5 ∷ n ∷ rest) len s
          ≡ some (tt, record s { phase = p; protocol = q }, no_authentication ∷ [])
    counted (suc (suc len)) h k =
        process_data_of_loop s fresh (suc (suc len)) notices (5 ∷ n ∷ rest) (rw waiting refl)
          (record s { phase = p; protocol = q }) false (no_authentication ∷ [])
          (consume_loop_round (suc (suc len)) fresh (suc (suc len)) 0 (5 ∷ n ∷ rest) s (greeted s) 2
              (no_authentication ∷ []) (rw waiting refl) (omega arith) first_round refl
            ∙ ap (join (no_authentication ∷ [])) (
                consume_loop_round (suc len) fresh (suc (suc len)) 2 (5 ∷ n ∷ rest) (greeted s)
                  (record s { phase = p; protocol = q }) 2 [] refl (omega arith) asks goes
                ∙ join-nil _
                ∙ consume_loop_done len fresh (suc (suc len)) 4 (5 ∷ n ∷ rest)
                    (record s { phase = p; protocol = q }) (omega arith)))
          plain
    counted _ h k = absurd (omega arith)

  refused :
      (len : ℕ)
      → 2 < len
      → n ≢ 1
      → n ≢ 3
      → process_data fresh notices (5 ∷ n ∷ rest) len s
        ≡ some (
          tt,
          record s { phase = closed },
          no_authentication ∷ tcp_send (socks_reply 0x07) ∷ tcp_close ∷ [],
        )
  unfolding handle_socks_methods
  refused (suc (suc len)) h n1 n3 =
      process_data_of_loop s fresh (suc (suc len)) notices (5 ∷ n ∷ rest) (rw waiting refl)
        (record s { phase = closed }) true
        (no_authentication ∷ tcp_send (socks_reply 0x07) ∷ tcp_close ∷ [])
        (consume_loop_round (suc (suc len)) fresh (suc (suc len)) 0 (5 ∷ n ∷ rest) s (greeted s) 2
            (no_authentication ∷ []) (rw waiting refl) (omega arith) first_round refl
          ∙ ap (join (no_authentication ∷ [])) (
              consume_loop_closes (suc len) fresh (suc (suc len)) 2 (5 ∷ n ∷ rest) (greeted s)
                (record s { phase = closed }) 1 (tcp_send (socks_reply 0x07) ∷ []) refl
                (omega arith) (ground arith) refl alive))
        refl
  refused _ h n1 n3 = absurd (omega arith)

  -- A greeting in phase WaitGreetingVersion on an open TCP socket, received as three or four bytes,
  -- is answered with "no authentication", and then the number of methods n that it offers is taken
  -- as a command: 1 leads to phase WaitSocksTCP, 3 to WaitSocksUDP, and any other number to reply 7
  -- and a closed socket.
  pub process_data-greeting_counted :
      (len : ℕ)
      → 2 < len
      → len ≤ 4
      → process_data fresh notices (5 ∷ n ∷ rest) len s ≡ (
          if n == 1
          then some (
            tt,
            record s { phase = wait_socks_tcp; protocol = socks5_connect },
            tcp_send (0x05 ∷ 0x00 ∷ []) ∷ [],
          )
          else if n == 3
          then some (
            tt,
            record s { phase = wait_socks_udp; protocol = udp_associate },
            tcp_send (0x05 ∷ 0x00 ∷ []) ∷ [],
          )
          else some (
            tt,
            record s { phase = closed },
            tcp_send (0x05 ∷ 0x00 ∷ []) ∷ tcp_send (socks_reply 0x07) ∷ tcp_close ∷ [],
          ))
  unfolding handle_socks_methods
  process_data-greeting_counted len h k = elim (Bool-cases (n == 1)) [
    | inl e ↦ rw e (counted wait_socks_tcp socks5_connect (ground arith) refl refl len h k)
    | inr n1 ↦ elim (Bool-cases (n == 3)) [
      | inl e ↦ rw (n1, e) (counted wait_socks_udp udp_associate (ground arith) refl refl len h k)
      | inr n3 ↦ rw (n1, n3) (refused len h (ground arith) (ground arith))
    ]
  ]

  -- After a greeting of three bytes that offers one method, on an open TCP socket, a request for an
  -- IPv4 address of which more than two bytes were received is a TCP connect, whatever its command
  -- byte.
  pub command_ignored :
      (more len : ℕ) (later : List (Notice × ℕ)) (ver cmd rsv a b c d hi lo : ℕ) (tail : List ℕ)
      → n ≡ 1
      → 2 < len
      → (process_data fresh notices (5 ∷ n ∷ rest) 3
            >> process_data more later (ver ∷ cmd ∷ rsv ∷ 1 ∷ a ∷ b ∷ c ∷ d ∷ hi ∷ lo ∷ tail) len)
          s
        ≡ some (
          tt,
          connecting_to s more (dotted a b c d) ((hi * 2 ^ 8 + lo) % 2 ^ 16) socks5_connect,
          tcp_send (0x05 ∷ 0x00 ∷ [])
              ∷ connect_effects more (dotted a b c d) ((hi * 2 ^ 8 + lo) % 2 ^ 16) socks5_connect,
        )
  unfolding handle_socks_tcp_udp handle_socks_ipv4
  command_ignored more len later ver cmd rsv a b c d hi lo tail one h =
      rw (◌>>◌, ◌>>=◌, process_data-greeting_counted 3 (omega arith) (omega arith), eq→== n 1 one)
        (ap (join (no_authentication ∷ [])) (
          two_rounds more 6 (ver ∷ cmd ∷ rsv ∷ 1 ∷ a ∷ b ∷ c ∷ d ∷ hi ∷ lo ∷ tail)
            (record s { phase = wait_socks_tcp; protocol = socks5_connect })
            (record s { phase = wait_socks_ipv4; protocol = socks5_connect })
            (connecting_to s more (dotted a b c d) ((hi * 2 ^ 8 + lo) % 2 ^ 16) socks5_connect)
            (connect_effects more (dotted a b c d) ((hi * 2 ^ 8 + lo) % 2 ^ 16) socks5_connect) refl
            refl refl refl refl later len h))

-- The bytes are kept for the server.
abbrev pub keep : List ℕ → M (Unit {0})
keep bytes = modify (λ s. record s { pending_buf = s.pending_buf ++ bytes ∷ [] })

module _ (s : Socks5Session) (fresh len b : ℕ) (rest : List ℕ)
    (waiting : s.phase ≡ wait_greeting_version) (other : b ≢ 5) where
  http_round :
      handle_phase s.phase fresh (b ∷ rest) s
      ≡ some (some 2, record s { phase = wait_http_request_headers }, [])
  unfolding handle_greeting_version
  http_round = rw waiting (ground arith)

  http_loop :
      consume_loop (suc (suc len)) fresh (b ∷ rest) (suc len) 0 s
      ≡ some (false, record s { phase = wait_http_request_headers }, [])
  http_loop =
      consume_loop_round (suc len) fresh (suc len) 0 (b ∷ rest) s
        (record s { phase = wait_http_request_headers }) 2 [] (rw waiting refl) (omega arith)
        http_round refl
      ∙ join-nil _
      ∙ consume_loop-stops len fresh (suc len) 2 (b ∷ rest)
          (record s { phase = wait_http_request_headers }) refl

  http_pending :
      (notices : List (Notice × ℕ))
      → consume_pending fresh notices (b ∷ rest) (suc len) s
        ≡ (on_request_notices notices >> keep (take (suc len) (b ∷ rest)))
            (record s { phase = wait_http_request_headers })
  unfolding consume_pending
  http_pending notices = rw (http_loop, consume_pending, ◌>>=◌) (join-nil _ ∙ join-nil _)

-- In phase WaitGreetingVersion, data that is not empty and does not start with 5 is given to the
-- request parser, whose callbacks run in the header phase, and is then kept for the server.
pub process_data-http :
    (s : Socks5Session) (fresh len : ℕ) (notices : List (Notice × ℕ)) (b : ℕ) (rest : List ℕ)
    → s.phase ≡ wait_greeting_version
    → b ≢ 5
    → 0 < len
    → process_data fresh notices (b ∷ rest) len s
      ≡ (on_request_notices notices >> keep (take len (b ∷ rest)))
          (record s { phase = wait_http_request_headers })
process_data-http s fresh (suc len) notices b rest waiting other h =
    process_data_pending s fresh (suc len) notices (b ∷ rest) (rw waiting refl)
    ∙ http_pending s fresh len b rest waiting other notices
process_data-http s fresh zero notices b rest waiting other h = absurd (omega arith)
