-- ===== src/App.antt =====
-- Src/client/include/network_rtc_app.h and Src/client/src/network_rtc_app.cpp: the controller, the
-- multiplexer and the SOCKS server of the client, and the pipe between the data channel and the
-- multiplexer, which Src/server/src/process_new_client.cpp has as well.
pub mod SocksServer
pub mod Pipe
pub mod Sessions
pub mod Start
pub mod Tunnel
pub mod Opening
pub mod Ending
mod Tests
use rtcvpn.Common.{
  ℕ, List, [], ◌∷◌, ◌++◌, Bool, true, false, Option, none, some, if◌then◌else◌, ◌>>=◌,
}
use mathlib.Core.List.{map}
use rtcvpn.Protocol.Message.{pack_message, unpack_message}
use rtcvpn.Mux.{SessionMux, Call, on_p2p_data, new_mux, set_send_func}
use rtcvpn.P2p
use rtcvpn.P2p.{Controller, State}
use rtcvpn.P2p.Library.{Answers}
use SocksServer
use SocksServer.{Server}

-- The number of send_out among the functions that a multiplexer is given.
abbrev pub pipe : ℕ
pipe = 0

-- The function given to set_send_func; a message that is too long is logged and dropped.
unfoldable pub send_out : Answers → List ℕ → Controller → List P2p.Effect
send_out answers frame c = elim (pack_message frame) [
  | none ↦ []
  | some buf ↦ P2p.send answers buf c
]

-- The function given to bindDataChannel.
unfoldable pub receive : SessionMux → List ℕ → Option Call
receive mux data_bytes = do result ← unpack_message data_bytes; on_p2p_data mux result.payload

pub record NetworkRtcApp : Type 0 where
  pub controller : Controller
  pub mux : SessionMux
  pub server : Server
  pub close_callback : Bool
  pub socks5_bind_port : ℕ

-- NetworkRtcApp::NetworkRtcApp, which gives the multiplexer and the controller the functions of
-- the pipe.
unfoldable pub new_app : ℕ → NetworkRtcApp
unfolding new_mux
new_app peer_conn_id = record {
  controller = P2p.bind_data_callback (P2p.init []);
  mux = set_send_func (new_mux peer_conn_id) pipe;
  server = SocksServer.new_server;
  close_callback = false;
  socks5_bind_port = 0;
}

unfoldable pub on_close : NetworkRtcApp → NetworkRtcApp
on_close a = record a { close_callback = true }

pub data Effect : Type 0 where
  of_controller : P2p.Effect → Effect
  of_server : SocksServer.Effect → Effect
  call_close : Effect

abbrev on_server : NetworkRtcApp → Server × List SocksServer.Effect → NetworkRtcApp × List Effect
on_server a (server, es) = (record a { server = server }, map of_server es)

-- NetworkRtcApp::stop.
unfoldable pub stop : NetworkRtcApp → NetworkRtcApp × List Effect
unfolding SocksServer.stop
stop a =
    let (b, es) = on_server a (SocksServer.stop a.server) in
    (b, es ++ map of_controller (P2p.disconnect a.controller))

-- The handler that start gives to onStateChange. `fails` is whether opening, binding or listening
-- throws, as start of the server does, and an empty close callback throws too.
unfoldable pub on_state : Bool → State → NetworkRtcApp → Option (NetworkRtcApp × List Effect)
unfolding SocksServer.start SocksServer.stop
on_state fails P2p.connected a = do
  r ← SocksServer.start fails a.socks5_bind_port a.server
  some (on_server a r)
on_state fails P2p.closed a =
    let (b, es) = on_server a (SocksServer.stop a.server) in
    if a.close_callback then some (b, es ++ call_close ∷ []) else none
