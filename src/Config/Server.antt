-- ===== src/Config/Server.antt =====
-- ServerConfig of Src/server/include/server_config.h. Numbers are words of their width.
use rtcvpn.Common.{ℕ, ◌*◌, List, [], ◌∷◌, Bool, false, Option, none, some, if◌then◌else◌, codes}
use rtcvpn.Config.{Ini, long_of_int32, to_16, to_32, get_value, get_long, get_bool}
use rtcvpn.Config.Entries.{Entry, entry, write_all}

pub record ServerConfig : Type 0 where
  pub stun_ip : List ℕ
  pub stun_port : ℕ
  pub ws_bind_port : ℕ
  pub ws_max_message_size : ℕ
  pub ws_connection_timeout : ℕ
  pub ws_enable_tls : Bool
  pub ws_certificate_pem_file : List ℕ
  pub ws_key_pem_file : List ℕ
  pub ws_key_pem_pass : List ℕ
  pub ws_bind_address : List ℕ
  pub server_password : List ℕ
  pub asio_thread_count : ℕ

-- The default member initialisers.
abbrev pub default_server_config : ServerConfig
default_server_config = record {
  stun_ip = [];
  stun_port = 3478;
  ws_bind_port = 8080;
  ws_max_message_size = 1024 * 1024;
  ws_connection_timeout = 10000;
  ws_enable_tls = false;
  ws_certificate_pem_file = [];
  ws_key_pem_file = [];
  ws_key_pem_pass = [];
  ws_bind_address = codes "0.0.0.0";
  server_password = [];
  asio_thread_count = 4;
}

module _ (i : Ini) where
  -- The values that are set where the file does not exist.
  abbrev pub server_entries : ServerConfig → List Entry
  server_entries c =
      entry "stun" "ip" c.stun_ip
      ∷ entry "stun" "port" (i.long_text c.stun_port)
      ∷ entry "websocket" "bind_port" (i.long_text c.ws_bind_port)
      ∷ entry "websocket" "max_message_size" (i.long_text c.ws_max_message_size)
      ∷ entry "websocket" "connection_timeout" (i.long_text c.ws_connection_timeout)
      ∷ entry "websocket" "enable_tls" (i.bool_text c.ws_enable_tls)
      ∷ entry "websocket" "certificate_pem_file" c.ws_certificate_pem_file
      ∷ entry "websocket" "key_pem_file" c.ws_key_pem_file
      ∷ entry "websocket" "key_pem_pass" c.ws_key_pem_pass
      ∷ entry "websocket" "bind_address" c.ws_bind_address
      ∷ entry "server" "password" c.server_password
      ∷ entry "server" "asio_thread_count" (i.long_text (long_of_int32 c.asio_thread_count))
      ∷ []

  -- The assignments at the end.
  unfoldable pub read_server : i.Store → ServerConfig
  read_server st =
      let text = λ (s k d : List ℕ). get_value i st s k d in
      let long = λ (s k : List ℕ) (d : ℕ). get_long i st s k d in
      let ws = codes "websocket" in
      record {
        stun_ip = text (codes "stun") (codes "ip") (codes "stun.miwifi.com:3478");
        stun_port = to_16 (long (codes "stun") (codes "port") 3478);
        ws_bind_port = to_16 (long ws (codes "bind_port") 8080);
        ws_max_message_size = to_32 (long ws (codes "max_message_size") (1024 * 1024));
        ws_connection_timeout = to_16 (long ws (codes "connection_timeout") 30);
        ws_enable_tls = get_bool i st ws (codes "enable_tls") false;
        ws_certificate_pem_file = text ws (codes "certificate_pem_file") [];
        ws_key_pem_file = text ws (codes "key_pem_file") [];
        ws_key_pem_pass = text ws (codes "key_pem_pass") [];
        ws_bind_address = text ws (codes "bind_address") (codes "0.0.0.0");
        server_password = text (codes "server") (codes "password") [];
        asio_thread_count = to_32 (long (codes "server") (codes "asio_thread_count") 4);
      }

  -- readConfig, with arguments as for read_client_config.
  unfoldable pub read_server_config : Option (Option i.Store) → Bool → ServerConfig → ServerConfig
  unfolding read_server
  read_server_config none saved c =
      if saved then read_server (write_all i (server_entries c) i.empty) else c
  read_server_config (some none) saved c = c
  read_server_config (some (some st)) saved c = read_server st
