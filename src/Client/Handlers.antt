-- ===== src/Client/Handlers.antt =====
-- Socks5Session: what the browser sends, from the greeting to the request for a remote
-- connection. `bytes` is the memory from the data pointer to the end of the receive buffer, of
-- which `len` bytes are received data. Stream ids that gen_stream_id gives are arguments.
pub mod Rounds
use Prim.Native.Nat.{ℕ, zero, suc}
use rtcvpn.Common.{
  ◌+◌, ◌*◌, ◌^◌, ◌%◌, List, [], ◌∷◌, ◌++◌, Bool, true, false, ◌&&◌, ◌||◌, not, Option, none, some,
  ltb, leb, ◌==◌, if◌then◌else◌, length, get_elem?, take, drop, codes,
}
use rtcvpn.Protocol.Types.{
  Phase, Protocol, wait_greeting_version, wait_socks_methods, wait_socks_tcp, wait_socks_udp,
  wait_socks_ipv4, wait_socks_domain, wait_socks_udp_addr, wait_http_request_headers, connecting,
  connected, closed, unknown, socks5_connect, http_plain, https_connect, udp_associate,
}
use rtcvpn.Protocol.Origin.{find_char}
use rtcvpn.Http.{Message, iequals, get_header}
use rtcvpn.Http.Parser.{Notice, headers_complete, failed}
use rtcvpn.Client.Text.{dotted, stoi16}
use rtcvpn.Client.{
  Socks5Session, Effect, tcp_send, tcp_close, create_session, set_on_data, set_on_synack,
  set_on_close, send_syn, send_data, M, ◌>>=◌, ◌>>◌, return, skip, fault, get, modify, emit, on_tcp,
  on_session,
}

-- `data[i]`.
abbrev pub byte_at : List ℕ → ℕ → M ℕ
byte_at bytes i s = elim (get_elem? bytes i) [ none ↦ none | some b ↦ some (b, s, []) ]

-- The `n` bytes from `data + i` on.
unfoldable pub slice : List ℕ → ℕ → ℕ → Option (List ℕ)
slice bytes i n =
    let found = take n (drop i bytes) in if length found == n then some found else none

abbrev pub bytes_at : List ℕ → ℕ → ℕ → M (List ℕ)
bytes_at bytes i n s = elim (slice bytes i n) [ none ↦ none | some found ↦ some (found, s, []) ]

abbrev pub set_phase : Phase → M (Unit {0})
set_phase p = modify (λ s. record s { phase = p })

abbrev pub set_target : List ℕ → ℕ → M (Unit {0})
set_target host port = modify (λ s. record s { target_host = host; target_port = port })

-- The ten bytes of send_socks_reply.
abbrev pub socks_reply : ℕ → List ℕ
socks_reply code = 0x05 ∷ code ∷ 0x00 ∷ 0x01 ∷ 0 ∷ 0 ∷ 0 ∷ 0 ∷ 0 ∷ 0 ∷ []

abbrev pub send_socks_reply : ℕ → M (Unit {0})
send_socks_reply code = on_tcp (tcp_send (socks_reply code))

abbrev send_request : M (Unit {0})
send_request = do s ← get; on_session (λ sid. send_syn sid s.target_host s.target_port s.protocol)

-- request_remote_connect; `fresh` is the stream id of the session that mux_ creates. The data,
-- synack and close callbacks are installed, and no control callback is.
unfoldable pub request_remote_connect : ℕ → M (Unit {0})
request_remote_connect fresh = do
  emit (create_session fresh)
  modify (λ s. record s { session = some fresh })
  emit (set_on_data fresh)
  emit (set_on_synack fresh)
  emit (set_on_close fresh)
  send_request
  set_phase connecting

unfoldable pub handle_greeting_version : List ℕ → M ℕ
handle_greeting_version bytes = do
  v0 ← byte_at bytes 0
  if v0 == 0x05
      then (do set_phase wait_socks_methods; on_tcp (tcp_send (0x05 ∷ 0x00 ∷ [])))
      else set_phase wait_http_request_headers
  return 2

unfoldable pub handle_socks_methods : List ℕ → M ℕ
handle_socks_methods bytes = do
  cmd ← byte_at bytes 1
  if cmd == 0x01
      then (do
        modify (λ s. record s { phase = wait_socks_tcp; protocol = socks5_connect })
        return 2)
      else if cmd == 0x03
      then (do
        modify (λ s. record s { phase = wait_socks_udp; protocol = udp_associate })
        return 2)
      else (do set_phase closed; send_socks_reply 0x07; return 1)

unfoldable pub handle_socks_tcp_udp : List ℕ → M ℕ
handle_socks_tcp_udp bytes = do
  atyp ← byte_at bytes 3
  if atyp == 0x01
      then set_phase wait_socks_ipv4
      else if atyp == 0x03
      then set_phase wait_socks_domain
      else (do send_socks_reply 0x08; set_phase closed)
  return 2

unfoldable pub handle_socks_ipv4 : ℕ → List ℕ → M ℕ
unfolding request_remote_connect
handle_socks_ipv4 fresh bytes = do
  a ← byte_at bytes 4
  b ← byte_at bytes 5
  c ← byte_at bytes 6
  d ← byte_at bytes 7
  hi ← byte_at bytes 8
  lo ← byte_at bytes 9
  set_target (dotted a b c d) ((hi * 2 ^ 8 + lo) % 2 ^ 16)
  request_remote_connect fresh
  return 6

unfoldable pub handle_socks_domain : ℕ → List ℕ → M ℕ
unfolding request_remote_connect
handle_socks_domain fresh bytes = do
  domain_len ← byte_at bytes 4
  host ← bytes_at bytes 5 domain_len
  hi ← byte_at bytes (domain_len + 5)
  lo ← byte_at bytes (domain_len + 6)
  set_target host ((hi * 2 ^ 8 + lo) % 2 ^ 16)
  request_remote_connect fresh
  return (3 + domain_len)

-- The switch of consume_pending; `none` is its default case, a return.
abbrev pub handle_phase : Phase → ℕ → List ℕ → M (Option ℕ)
handle_phase wait_greeting_version fresh bytes = do
  n ← handle_greeting_version bytes
  return (some n)
handle_phase wait_socks_methods fresh bytes = do n ← handle_socks_methods bytes; return (some n)
handle_phase wait_socks_tcp fresh bytes = do n ← handle_socks_tcp_udp bytes; return (some n)
handle_phase wait_socks_udp fresh bytes = do n ← handle_socks_tcp_udp bytes; return (some n)
handle_phase wait_socks_ipv4 fresh bytes = do n ← handle_socks_ipv4 fresh bytes; return (some n)
handle_phase wait_socks_domain fresh bytes = do n ← handle_socks_domain fresh bytes; return (some n)
handle_phase _ fresh bytes = return none

-- The phases in which the loop stops.
abbrev pub stops : Phase → Bool
stops closed = true
stops wait_http_request_headers = true
stops connecting = true
stops connected = true
stops _ = false

abbrev pub is_closed_phase : Phase → Bool
is_closed_phase closed = true
is_closed_phase _ = false

abbrev pub is_http_phase : Phase → Bool
is_http_phase wait_http_request_headers = true
is_http_phase _ = false

-- The loop of consume_pending; `true` is a return out of it. Every round consumes at least one
-- byte, so `len` rounds are enough.
unfoldable pub consume_loop : ℕ → ℕ → List ℕ → ℕ → ℕ → M Bool
consume_loop zero fresh bytes len consumed = return true
consume_loop (suc fuel) fresh bytes len consumed = do
  s ← get
  if stops s.phase || leb len consumed then return false else (do
    n ← handle_phase s.phase fresh bytes
    t ← get
    elim n [
      | none ↦ return true
      | some k ↦
          if is_closed_phase t.phase
          then (do on_tcp tcp_close; return true)
          else consume_loop fuel fresh bytes len (consumed + k)
    ])

-- `==` of two std::strings.
abbrev pub text_eq : List ℕ → List ℕ → Bool
text_eq [] [] = true
text_eq (a ∷ xs) (b ∷ ys) = a == b && text_eq xs ys
text_eq _ _ = false

-- The port behind the colon that a target may have, or 80.
abbrev split_port : List ℕ → M (Unit {0})
split_port target = elim (find_char b':' target) [
  | none ↦ set_target target 80
  | some i ↦ λ s. elim (stoi16 (drop (i + 1) target)) [
    | none ↦ none
    | some port ↦ some (tt, record s { target_host = take i target; target_port = port }, [])
  ]
]

abbrev is_connect : Message → Bool
is_connect m = text_eq m.method (codes "CONNECT")

-- The callbacks of http_request_parser_, each with the stream id that a session it creates gets.
unfoldable pub on_request_notice : Notice × ℕ → M (Unit {0})
unfolding request_remote_connect
on_request_notice (headers_complete m, fresh) = do
  split_port (if is_connect m then m.target else get_header m (codes "Host"))
  s ← get
  if leb (length s.target_host) 0 then on_tcp tcp_close else (do
    modify (λ t. record t { protocol = if is_connect m then https_connect else http_plain })
    request_remote_connect fresh)
on_request_notice (failed code, fresh) = on_tcp tcp_close
on_request_notice (_, fresh) = skip

unfoldable pub on_request_notices : List (Notice × ℕ) → M (Unit {0})
on_request_notices [] = skip
on_request_notices (n ∷ ns) = do on_request_notice n; on_request_notices ns

-- consume_pending. `notices` are the callbacks that the request parser makes if it is fed.
unfoldable pub consume_pending : ℕ → List (Notice × ℕ) → List ℕ → ℕ → M (Unit {0})
consume_pending fresh notices bytes len = do
  returned ← consume_loop (suc len) fresh bytes len 0
  s ← get
  if not returned && is_http_phase s.phase
      then (do
        on_request_notices notices
        modify (λ t. record t { pending_buf = t.pending_buf ++ take len bytes ∷ [] }))
      else skip

-- The switch of process_data in phase Connected.
abbrev forward : Protocol → List ℕ → M (Unit {0})
forward socks5_connect bytes s = on_session (λ sid. send_data sid bytes s.protocol) s
forward http_plain bytes s = on_session (λ sid. send_data sid bytes s.protocol) s
forward https_connect bytes s = on_session (λ sid. send_data sid bytes s.protocol) s
forward _ bytes s = skip s

abbrev pub close_if_open : M (Unit {0})
close_if_open s = if s.tcp_socket then some (tt, s, tcp_close ∷ []) else some (tt, s, [])

abbrev pub by_phase : Phase → ℕ → List (Notice × ℕ) → List ℕ → ℕ → M (Unit {0})
by_phase connected fresh notices bytes len = do s ← get; forward s.protocol (take len bytes)
by_phase closed fresh notices bytes len = close_if_open
by_phase _ fresh notices bytes len = consume_pending fresh notices bytes len

unfoldable pub process_data : ℕ → List (Notice × ℕ) → List ℕ → ℕ → M (Unit {0})
process_data fresh notices bytes len = do s ← get; by_phase s.phase fresh notices bytes len
