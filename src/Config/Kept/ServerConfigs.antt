-- ===== src/Config/Kept/ServerConfigs.antt =====
-- What reading makes of a server's configuration that was written.
use rtcvpn.Common.{
  ℕ, ◌*◌, ◌^◌, ◌<◌, ◌≡◌, refl, List, [], Bool, true, false, none, some, ltb, codes, arith,
  Bool-cases, inl, inr,
}
use rtcvpn.Http.{iequals, to_lower}
use rtcvpn.Config.{Ini, IniLaws, long_of_int32, get_long, to_16, to_32}
use rtcvpn.Config.Entries.{Entry, found, write_all}
use rtcvpn.Config.Server.{ServerConfig, server_entries, read_server, read_server_config}
use rtcvpn.Config.Kept.{text_kept, narrowed, word_32_kept, bool_kept}

pub record IsServerConfig (c : ServerConfig) : Type 0 where
  pub stun_port : c.stun_port < 2 ^ 16
  pub ws_bind_port : c.ws_bind_port < 2 ^ 16
  pub ws_max_message_size : c.ws_max_message_size < 2 ^ 32
  pub ws_connection_timeout : c.ws_connection_timeout < 2 ^ 16
  pub asio_thread_count : c.asio_thread_count < 2 ^ 32

narrow_int32 : (n : ℕ) → n < 2 ^ 32 → (long_of_int32 n < 2 ^ 64) × (to_32 (long_of_int32 n) ≡ n)
narrow_int32 n h = elim (Bool-cases (ltb n (2 ^ 31))) [
  | inl y ↦ rw y (omega arith, omega arith)
  | inr y ↦ rw y (omega arith, omega arith)
]

module _ (i : Ini) (laws : IniLaws i) (es : List Entry) where
  port_kept :
      (s k : List ℕ) (d n : ℕ)
      → found s k es ≡ some (i.long_text n)
      → n < 2 ^ 16
      → to_16 (get_long i (write_all i es i.empty) s k d) ≡ n
  port_kept s k d n f h = narrowed i laws es to_16 s k d n n f (omega (arith, h)) (omega (arith, h))

  int_kept :
      (s k : List ℕ) (d n : ℕ)
      → found s k es ≡ some (i.long_text (long_of_int32 n))
      → n < 2 ^ 32
      → to_32 (get_long i (write_all i es i.empty) s k d) ≡ n
  int_kept s k d n f h =
      narrowed i laws es to_32 s k d (long_of_int32 n) n f (narrow_int32 n h).0 (narrow_int32 n h).1

server_kept :
    (i : Ini) (c : ServerConfig)
    → IniLaws i
    → IsServerConfig c
    → read_server i (write_all i (server_entries i c) i.empty) ≡ c
unfolding read_server iequals to_lower
server_kept i c laws ok =
    let ws = codes "websocket" in
    let es = server_entries i c in
    let text = text_kept i laws es in
    let flag = bool_kept i laws es in
    let word_16 = port_kept i laws es in
    let word_32 = word_32_kept i laws es in
    let int = int_kept i laws es in
    λ j. record {
      stun_ip = (text (codes "stun") (codes "ip") (codes "stun.miwifi.com:3478") c.stun_ip refl) j;
      stun_port = (word_16 (codes "stun") (codes "port") 3478 c.stun_port refl ok.stun_port) j;
      ws_bind_port = (word_16 ws (codes "bind_port") 8080 c.ws_bind_port refl ok.ws_bind_port) j;
      ws_max_message_size =
          (word_32 ws (codes "max_message_size") (1024 * 1024) c.ws_max_message_size refl
              ok.ws_max_message_size)
            j;
      ws_connection_timeout =
          (word_16 ws (codes "connection_timeout") 30 c.ws_connection_timeout refl
              ok.ws_connection_timeout)
            j;
      ws_enable_tls = (flag ws (codes "enable_tls") false c.ws_enable_tls refl) j;
      ws_certificate_pem_file =
          (text ws (codes "certificate_pem_file") [] c.ws_certificate_pem_file refl) j;
      ws_key_pem_file = (text ws (codes "key_pem_file") [] c.ws_key_pem_file refl) j;
      ws_key_pem_pass = (text ws (codes "key_pem_pass") [] c.ws_key_pem_pass refl) j;
      ws_bind_address = (text ws (codes "bind_address") (codes "0.0.0.0") c.ws_bind_address refl) j;
      server_password = (text (codes "server") (codes "password") [] c.server_password refl) j;
      asio_thread_count =
          (int (codes "server") (codes "asio_thread_count") 4 c.asio_thread_count refl
              ok.asio_thread_count)
            j;
    }

-- For an ini library that reads what it wrote, and a server's configuration whose numbers fit
-- their types: reading without a file, which writes one, leaves the configuration as it is,
-- whether or not the file can be saved; so does a file that cannot be loaded; and reading the file
-- that was saved gives the same configuration again, whatever the one before.
pub server_config_kept :
    (i : Ini) (c before : ServerConfig) (saved : Bool)
    → IniLaws i
    → IsServerConfig c
    → (read_server_config i none saved c ≡ c)
      × (read_server_config i (some none) saved c ≡ c)
      × (read_server_config i (some (some (write_all i (server_entries i c) i.empty))) saved before
          ≡ c)
unfolding read_server_config
server_config_kept i c before true laws ok =
    (server_kept i c laws ok, refl, server_kept i c laws ok)
server_config_kept i c before false laws ok = (refl, refl, server_kept i c laws ok)
