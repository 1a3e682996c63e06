-- ===== src/Startup/ServerMain.antt =====
-- main of Src/server/src/main.cpp. What the library's threads do to the clients meanwhile are events
-- between the passes of input_keyboard.
pub mod Ends
use rtcvpn.Common.{
  ℕ, ◌^◌, List, [], ◌∷◌, ◌++◌, Bool, true, false, Option, none, some, if◌then◌else◌, ltb, replicate,
  put,
}
use mathlib.Core.List.{map}
use rtcvpn.P2p
use rtcvpn.Config.Server.{ServerConfig}
use rtcvpn.Server.Process
use rtcvpn.Server.Process.{
  ProcessNewWsClient, Socks5Session, new_process, new_client, on_client_close,
}
use rtcvpn.Startup.Keyboard.{Keyboard, Pass, pass, enter, signal_handler}

-- rtc::WebSocketServerConfiguration, as far as it is set; a time is in milliseconds.
pub record WebSocketServerConfiguration : Type 0 where
  pub port : ℕ
  pub connection_timeout : ℕ
  pub max_message_size : ℕ
  pub bind_address : List ℕ
  pub enable_tls : Bool

pub data Effect : Type 0 where
  init_logger handle_signals init_rtc_logger : Effect
  listen : WebSocketServerConfiguration → Effect
  start_thread : Effect
  stop_listening : Effect
  of_controller : P2p.Effect → Effect
  release_work : Effect
  join_thread : Effect
  log_exception : Effect
  shutdown_logger : Effect

pub record ServerMain : Type 0 where
  pub process : ProcessNewWsClient
  pub keyboard : Keyboard

-- A pass of input_keyboard, a signal, a new WebSocket, what the handlers of a client make of it,
-- or its removal.
pub data Event : Type 0 where
  at_keyboard : Pass → Event
  signal : Event
  connects : Event
  client_changes : ℕ → Socks5Session → Event
  client_removed : ℕ → Event

unfoldable pub step : Event → ServerMain → ServerMain
unfolding pass signal_handler new_client on_client_close
step (at_keyboard p) m = record m { keyboard = pass p m.keyboard }
step signal m = record m { keyboard = signal_handler m.keyboard }
step connects m = record m { process = new_client m.process }
step (client_changes id s) m = record m {
  process = record m.process { client_sessions = put id s m.process.client_sessions };
}
step (client_removed id) m = record m { process = on_client_close id m.process }

unfoldable pub run : List Event → ServerMain → ServerMain
run [] m = m
run (e ∷ es) m = run es (step e m)

-- asio_thread_count is a 32-bit signed integer.
abbrev pub thread_count : ServerConfig → ℕ
thread_count c = if ltb c.asio_thread_count (2 ^ 31) then c.asio_thread_count else 0

abbrev pub web_socket_configuration : ServerConfig → WebSocketServerConfiguration
web_socket_configuration c = record {
  port = c.ws_bind_port;
  connection_timeout = c.ws_connection_timeout;
  max_message_size = c.ws_max_message_size;
  bind_address = c.ws_bind_address;
  enable_tls = c.ws_enable_tls;
}

-- main before it reads the configuration.
abbrev pub prepare : List Effect
prepare = init_logger ∷ handle_signals ∷ init_rtc_logger ∷ []

-- main up to input_keyboard; `garbage` is what its variable holds.
unfoldable pub begin : ℕ → ServerConfig → ServerMain × List Effect
unfolding enter
begin garbage config = (
  record {
    process = new_process config.server_password;
    keyboard = enter garbage (record { running = true; inside = false; c = 0 });
  },
  listen (web_socket_configuration config) ∷ replicate (thread_count config) start_thread,
)

-- main behind input_keyboard.
unfoldable pub finish : ServerConfig → ServerMain → List Effect
unfolding Process.stop
finish config m =
    stop_listening
    ∷ (map of_controller (Process.stop m.process)
        ++ release_work ∷ replicate (thread_count config) join_thread)

-- main with what happens while it waits, none where input_keyboard has not returned; `fails` is
-- whether the WebSocket server cannot be made, which throws.
unfoldable pub main : Bool → ℕ → ServerConfig → List Event → Option (List Effect)
unfolding begin run finish
main fails garbage config es =
    let m = run es (begin garbage config).0 in
    if fails
    then some (prepare ++ log_exception ∷ shutdown_logger ∷ [])
    else if m.keyboard.inside
    then none
    else some (prepare ++ ((begin garbage config).1 ++ (finish config m ++ shutdown_logger ∷ [])))
