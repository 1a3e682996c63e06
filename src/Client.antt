-- ===== src/Client.antt =====
-- Src/client/include/tcp_session.h and Src/client/src/tcp_session.cpp: Socks5Session, one browser
-- connection. A method is a function from the session to `none`, a fault of the C++ program (a
-- read outside the receive buffer, a null pointer, an exception that nothing catches), or to its
-- result, the new session and the effects in order.
pub mod Text
pub mod Handlers
pub mod Callbacks
pub mod Greeting
pub mod Request
pub mod Tunnel
pub mod Wiring
pub mod Udp
pub mod Response
mod Tests
use rtcvpn.Common.{ℕ, List, [], ◌∷◌, ◌++◌, Bool, true, false, Option, none, some}
use rtcvpn.Protocol.Types.{Phase, Protocol, CtrlType, wait_greeting_version, unknown}

-- `tcp_socket` is whether tcp_socket_ is not null, `session` the stream id of session_, if that is
-- not null, and `udp_session` whether udp_session_ is not null.
pub record Socks5Session : Type 0 where
  pub tcp_socket : Bool
  pub target_host : List ℕ
  pub target_port : ℕ
  pub session : Option ℕ
  pub udp_session : Bool
  pub on_close : Bool
  pub session_id : ℕ
  pub pending_buf : List (List ℕ)
  pub phase : Phase
  pub protocol : Protocol
  pub is_closed : Bool
  pub is_p2p_closed : Bool

-- What a method does to the TCP socket, the multiplexer, the UDP session and the owner.
pub data Effect : Type 0 where
  tcp_send : List ℕ → Effect
  tcp_close tcp_start_reading tcp_stop_reading tcp_start : Effect
  create_session : ℕ → Effect
  set_on_data set_on_synack set_on_close : ℕ → Effect
  send_syn : ℕ → List ℕ → ℕ → Protocol → Effect
  send_data : ℕ → List ℕ → Protocol → Effect
  send_fin : ℕ → Protocol → Effect
  send_data_ctrl : ℕ → CtrlType → Protocol → Effect
  remove_session : ℕ → Effect
  start_udp : Effect
  udp_receive : List ℕ → Effect
  udp_data_ctrl : CtrlType → Effect
  close_udp : Effect
  feed_response : List ℕ → Effect
  call_on_close : ℕ → Effect

-- State, effects and faults.
abbrev pub M : Type 0 → Type 0
M A = Socks5Session → Option (A × Socks5Session × List Effect)

abbrev pub join {ℓ} :
    {A : Type ℓ}
    → List Effect
    → Option (A × Socks5Session × List Effect)
    → Option (A × Socks5Session × List Effect)
join es none = none
join es (some (a, s, fs)) = some (a, s, es ++ fs)

infixl 5 ◌>>=◌ ◌>>◌
abbrev pub ◌>>=◌ : {A B : Type 0} → M A → (A → M B) → M B
◌>>=◌ m f s = elim (m s) [ none ↦ none | some (a, t, es) ↦ join es (f a t) ]

abbrev pub ◌>>◌ : {B : Type 0} → M (Unit {0}) → M B → M B
m >> k = m >>= λ _. k

abbrev pub return : {A : Type 0} → A → M A
return a s = some (a, s, [])

abbrev pub skip : M (Unit {0})
skip s = some (tt, s, [])

abbrev pub fault : {A : Type 0} → M A
fault s = none

abbrev pub get : M Socks5Session
get s = some (s, s, [])

abbrev pub put : Socks5Session → M (Unit {0})
put t s = some (tt, t, [])

abbrev pub modify : (Socks5Session → Socks5Session) → M (Unit {0})
modify f s = some (tt, f s, [])

abbrev pub emit : Effect → M (Unit {0})
emit e s = some (tt, s, e ∷ [])

-- An effect on tcp_socket_, which is a fault if that is null.
abbrev pub on_tcp : Effect → M (Unit {0})
on_tcp e s = elim s.tcp_socket [ true ↦ some (tt, s, e ∷ []) | false ↦ none ]

-- An effect that needs the stream id of session_, which is a fault if that is null.
abbrev pub on_session : (ℕ → Effect) → M (Unit {0})
on_session e s = elim s.session [ none ↦ none | some sid ↦ some (tt, s, e sid ∷ []) ]

-- Socks5Session::Socks5Session.
abbrev pub new_session : ℕ → Socks5Session
new_session id = record {
  tcp_socket = true;
  target_host = [];
  target_port = 0;
  session = none;
  udp_session = false;
  on_close = false;
  session_id = id;
  pending_buf = [];
  phase = wait_greeting_version;
  protocol = unknown;
  is_closed = false;
  is_p2p_closed = false;
}
