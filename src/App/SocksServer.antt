-- ===== src/App/SocksServer.antt =====
-- Src/client/include/socks5.h and Src/client/src/socks5.cpp. A session object is a number, in the
-- order in which the server made them.
use rtcvpn.Common.{
  ℕ, ◌+◌, List, [], ◌∷◌, ◌++◌, Bool, true, false, Option, none, some, if◌then◌else◌, put, remove,
  values,
}
use rtcvpn.Server.Ids.{create_session_id}

-- `id` is the counter of session_id_generator_, and `made` the number of objects so far.
pub record Server : Type 0 where
  pub acceptor_open : Bool
  pub sessions : List (ℕ × ℕ)
  pub id : ℕ
  pub port : ℕ
  pub made : ℕ

pub data Effect : Type 0 where
  listen : ℕ → Effect
  async_accept : Effect
  close_acceptor : Effect
  new_session : ℕ → ℕ → Effect
  set_on_close : ℕ → Effect
  start_session : ℕ → Effect
  clear_on_close : ℕ → Effect
  close_session : ℕ → Effect

-- SocksServer::SocksServer.
abbrev pub new_server : Server
new_server = record { acceptor_open = false; sessions = []; id = 0; port = 0; made = 0 }

-- SocksServer::start; the port goes through int16_t and back, which keeps its 16 bits. A call on
-- the acceptor that fails throws.
unfoldable pub start : Bool → ℕ → Server → Option (Server × List Effect)
start fails port s =
    if fails
    then none
    else some (record s { port = port; acceptor_open = true }, listen port ∷ async_accept ∷ [])

abbrev pub close_all : List ℕ → List Effect
close_all [] = []
close_all (p ∷ ps) = clear_on_close p ∷ close_session p ∷ close_all ps

-- SocksServer::stop, which leaves the table as it is.
unfoldable pub stop : Server → Server × List Effect
stop s = (
  record s { acceptor_open = false },
  (if s.acceptor_open then close_acceptor ∷ [] else []) ++ close_all (values s.sessions),
)

-- The completion of async_accept.
pub data Accepted : Type 0 where
  aborted failed accepted : Accepted

unfoldable pub on_accept : Accepted → Server → Server × List Effect
unfolding create_session_id
on_accept aborted s = (s, [])
on_accept failed s = (s, async_accept ∷ [])
on_accept accepted s =
    let session_id = create_session_id s.id in
    (
      record s { id = session_id; sessions = put session_id s.made s.sessions; made = s.made + 1 },
      new_session s.made session_id
          ∷ set_on_close s.made
          ∷ start_session s.made
          ∷ async_accept
          ∷ [],
    )

-- The function given to set_on_close.
unfoldable pub on_session_close : ℕ → Server → Server
on_session_close id s = record s { sessions = remove id s.sessions }
