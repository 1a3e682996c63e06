-- ===== src/App/Start.antt =====
-- NetworkRtcApp::start of Src/client/src/network_rtc_app.cpp: what it takes from the configuration.
use rtcvpn.Common.{ℕ, List, [], ◌∷◌, Bool, true, Option, none, some, if◌then◌else◌, ltb}
use mathlib.Core.List.{map}
use rtcvpn.P2p
use rtcvpn.Config.Client.{ClientConfig}
use rtcvpn.App.{NetworkRtcApp, Effect, of_controller}

-- rtc::Configuration, as far as it is set: one ICE server by its host and port.
pub record RtcConfiguration : Type 0 where
  pub ice_servers : List (List ℕ × ℕ)
  pub proxy_server : Option (List ℕ)

-- rtc::WebSocketConfiguration; `none` is a field that keeps the library's default. Times are in
-- milliseconds.
pub record WebSocketConfiguration : Type 0 where
  pub disable_tls_verification : Bool
  pub proxy_server : Option (List ℕ)
  pub protocols : List (List ℕ)
  pub connection_timeout : Option ℕ
  pub ping_interval : Option ℕ
  pub max_outstanding_pings : Option ℕ
  pub ca_certificate_pem_file : Option (List ℕ)
  pub certificate_pem_file : Option (List ℕ)
  pub key_pem_file : Option (List ℕ)
  pub key_pem_pass : Option (List ℕ)
  pub max_message_size : Option ℕ

-- `if (!text.empty()) …` and `if (number > 0) …`.
abbrev pub non_empty : List ℕ → Option (List ℕ)
non_empty [] = none
non_empty (c ∷ cs) = some (c ∷ cs)

abbrev pub positive : ℕ → Option ℕ
positive n = if ltb 0 n then some n else none

abbrev pub rtc_configuration : ClientConfig → RtcConfiguration
rtc_configuration c = record {
  ice_servers = (c.stun_ip, c.stun_port) ∷ [];
  proxy_server = non_empty c.ws_proxy_server;
}

abbrev protocols_of : List ℕ → List (List ℕ)
protocols_of [] = []
protocols_of (p ∷ ps) = (p ∷ ps) ∷ []

abbrev pub web_socket_configuration : ClientConfig → WebSocketConfiguration
web_socket_configuration c = record {
  disable_tls_verification = c.ws_disable_tls_verification;
  proxy_server = non_empty c.ws_proxy_server;
  protocols = protocols_of c.ws_protocols;
  connection_timeout = positive c.ws_connection_timeout;
  ping_interval = positive c.ws_ping_interval;
  max_outstanding_pings = positive c.ws_max_outstanding_pings;
  ca_certificate_pem_file = non_empty c.ws_ca_certificate_pem_file;
  certificate_pem_file = non_empty c.ws_certificate_pem_file;
  key_pem_file = non_empty c.ws_key_pem_file;
  key_pem_pass = non_empty c.ws_key_pem_pass;
  max_message_size = positive c.ws_max_message_size;
}

-- The last part of start: init and onStateChange of the controller, and the connection.
unfoldable pub start : ClientConfig → NetworkRtcApp → NetworkRtcApp × List Effect
start c a =
    let ready = record a.controller {
      password = c.server_password;
      state_change_callback = true;
    } in
    let (connecting, es) = P2p.connect_url c.ws_server_ip ready in
    (
      record a { controller = connecting; socks5_bind_port = c.socks5_bind_port },
      map of_controller es,
    )
