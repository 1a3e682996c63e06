-- ===== src/Config/Client.antt =====
-- ClientConfig of Src/client/include/client_config.h. Numbers are words of their width.
use rtcvpn.Common.{ℕ, ◌*◌, List, [], ◌∷◌, Bool, false, Option, none, some, if◌then◌else◌, codes}
use rtcvpn.Config.{Ini, long_of_int16, to_16, to_32, get_value, get_long, get_bool}
use rtcvpn.Config.Entries.{Entry, entry, write_all}

pub record ClientConfig : Type 0 where
  pub stun_ip : List ℕ
  pub stun_port : ℕ
  pub ws_server_ip : List ℕ
  pub ws_max_message_size : ℕ
  pub ws_connection_timeout : ℕ
  pub ws_enable_tls : Bool
  pub ws_disable_tls_verification : Bool
  pub ws_max_outstanding_pings : ℕ
  pub ws_ping_interval : ℕ
  pub ws_ca_certificate_pem_file : List ℕ
  pub ws_key_pem_file : List ℕ
  pub ws_key_pem_pass : List ℕ
  pub ws_certificate_pem_file : List ℕ
  pub ws_proxy_server : List ℕ
  pub ws_protocols : List ℕ
  pub socks5_bind_ip : List ℕ
  pub socks5_bind_port : ℕ
  pub server_password : List ℕ
  pub asio_thread_count : ℕ

-- The default member initialisers.
abbrev pub default_client_config : ClientConfig
default_client_config = record {
  stun_ip = codes "stun.miwifi.com";
  stun_port = 3478;
  ws_server_ip = codes "ws://127.0.0.1:80";
  ws_max_message_size = 1024 * 1024;
  ws_connection_timeout = 3000;
  ws_enable_tls = false;
  ws_disable_tls_verification = false;
  ws_max_outstanding_pings = 100;
  ws_ping_interval = 3000;
  ws_ca_certificate_pem_file = [];
  ws_key_pem_file = [];
  ws_key_pem_pass = [];
  ws_certificate_pem_file = [];
  ws_proxy_server = [];
  ws_protocols = [];
  socks5_bind_ip = codes "0.0.0.0";
  socks5_bind_port = 10801;
  server_password = [];
  asio_thread_count = 4;
}

module _ (i : Ini) where
  -- The values that are set where the file does not exist.
  abbrev pub client_entries : ClientConfig → List Entry
  client_entries c =
      entry "stun" "ip" c.stun_ip
      ∷ entry "stun" "port" (i.long_text c.stun_port)
      ∷ entry "websocket" "server_ip" c.ws_server_ip
      ∷ entry "websocket" "max_message_size" (i.long_text c.ws_max_message_size)
      ∷ entry "websocket" "connection_timeout" (i.long_text c.ws_connection_timeout)
      ∷ entry "websocket" "enable_tls" (i.bool_text c.ws_enable_tls)
      ∷ entry "websocket" "disable_tls_verification" (i.bool_text c.ws_disable_tls_verification)
      ∷ entry "websocket" "max_outstanding_pings" (i.long_text c.ws_max_outstanding_pings)
      ∷ entry "websocket" "ping_interval" (i.long_text c.ws_ping_interval)
      ∷ entry "websocket" "ca_certificate_pem_file" c.ws_ca_certificate_pem_file
      ∷ entry "websocket" "certificate_pem_file" c.ws_certificate_pem_file
      ∷ entry "websocket" "key_pem_file" c.ws_key_pem_file
      ∷ entry "websocket" "key_pem_pass" c.ws_key_pem_pass
      ∷ entry "websocket" "proxy_server" c.ws_proxy_server
      ∷ entry "websocket" "protocols" c.ws_protocols
      ∷ entry "socks5" "bind_ip" c.socks5_bind_ip
      ∷ entry "socks5" "bind_port" (i.long_text (long_of_int16 c.socks5_bind_port))
      ∷ entry "server" "password" c.server_password
      ∷ entry "server" "asio_thread_count" (i.long_text (long_of_int16 c.asio_thread_count))
      ∷ []

  -- The assignments at the end.
  unfoldable pub read_client : i.Store → ClientConfig
  read_client st =
      let text = λ (s k d : List ℕ). get_value i st s k d in
      let long = λ (s k : List ℕ) (d : ℕ). get_long i st s k d in
      let ws = codes "websocket" in
      record {
        stun_ip = text (codes "stun") (codes "ip") (codes "stun.miwifi.com");
        stun_port = to_16 (to_32 (long (codes "stun") (codes "port") 3478));
        ws_server_ip = text ws (codes "server_ip") (codes "ws://127.0.0.1:80");
        ws_max_message_size = to_32 (long ws (codes "max_message_size") (1024 * 1024));
        ws_connection_timeout = to_16 (to_32 (long ws (codes "connection_timeout") 3000));
        ws_enable_tls = get_bool i st ws (codes "enable_tls") false;
        ws_disable_tls_verification = get_bool i st ws (codes "disable_tls_verification") false;
        ws_max_outstanding_pings = to_16 (to_32 (long ws (codes "max_outstanding_pings") 100));
        ws_ping_interval = to_16 (to_32 (long ws (codes "ping_interval") 3000));
        ws_ca_certificate_pem_file = text ws (codes "ca_certificate_pem_file") [];
        ws_key_pem_file = text ws (codes "key_pem_file") [];
        ws_key_pem_pass = text ws (codes "key_pem_pass") [];
        ws_certificate_pem_file = text ws (codes "certificate_pem_file") [];
        ws_proxy_server = text ws (codes "proxy_server") [];
        ws_protocols = text ws (codes "protocols") [];
        socks5_bind_ip = text (codes "socks5") (codes "bind_ip") (codes "0.0.0.0");
        socks5_bind_port = to_16 (to_32 (long (codes "socks5") (codes "bind_port") 10801));
        server_password = text (codes "server") (codes "password") [];
        asio_thread_count = to_16 (to_32 (long (codes "server") (codes "asio_thread_count") 4));
      }

  -- readClientConfig. `file` is none where exec_dir does not exist, and else what LoadFile gives,
  -- none where it fails; `saved` is whether SaveFile succeeds.
  unfoldable pub read_client_config : Option (Option i.Store) → Bool → ClientConfig → ClientConfig
  unfolding read_client
  read_client_config none saved c =
      if saved then read_client (write_all i (client_entries c) i.empty) else c
  read_client_config (some none) saved c = c
  read_client_config (some (some st)) saved c = read_client st
