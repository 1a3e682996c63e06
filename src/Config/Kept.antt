-- ===== src/Config/Kept.antt =====
-- What reading makes of a client's configuration that was written.
pub mod ServerConfigs
use rtcvpn.Common.{ℕ, ◌^◌, ◌<◌, ◌≡◌, ◌∙◌, refl, ap, List, Bool, some, arith}
use rtcvpn.Config.{Ini, IniLaws, long_of_int32, to_32, get_value, get_long, get_bool}
use rtcvpn.Config.Entries.{Entry, found, write_all, get-found}
use rtcvpn.Config.Client.{ClientConfig}
use rtcvpn.Config.Server.{ServerConfig, server_entries, read_server, read_server_config}

module _ (i : Ini) (laws : IniLaws i) (es : List Entry) where
  pub text_kept :
      (s k d t : List ℕ) → found s k es ≡ some t → get_value i (write_all i es i.empty) s k d ≡ t
  text_kept s k d t f = rw (get_value, get-found i laws s k t es i.empty f) refl

  long_kept :
      (s k : List ℕ) (d n : ℕ)
      → found s k es ≡ some (i.long_text n)
      → n < 2 ^ 64
      → get_long i (write_all i es i.empty) s k d ≡ n
  long_kept s k d n f h =
      rw (get_long, get-found i laws s k (i.long_text n) es i.empty f)
        (laws.read_long-long_text n d h)

  -- The same behind a conversion f.
  pub narrowed :
      (f : ℕ → ℕ) (s k : List ℕ) (d n m : ℕ)
      → found s k es ≡ some (i.long_text n)
      → n < 2 ^ 64
      → f n ≡ m
      → f (get_long i (write_all i es i.empty) s k d) ≡ m
  narrowed f s k d n m g h e = ap f (long_kept s k d n g h) ∙ e

  -- The numbers of the fields' types, each behind the conversion that reading makes.
  pub word_32_kept :
      (s k : List ℕ) (d n : ℕ)
      → found s k es ≡ some (i.long_text n)
      → n < 2 ^ 32
      → to_32 (get_long i (write_all i es i.empty) s k d) ≡ n
  word_32_kept s k d n f h = narrowed to_32 s k d n n f (omega (arith, h)) (omega (arith, h))

  pub bool_kept :
      (s k : List ℕ) (d b : Bool)
      → found s k es ≡ some (i.bool_text b)
      → get_bool i (write_all i es i.empty) s k d ≡ b
  bool_kept s k d b f =
      rw (get_bool, get-found i laws s k (i.bool_text b) es i.empty f)
        (laws.read_bool-bool_text b d)

-- The numbers fit their types.
pub record IsClientConfig (c : ClientConfig) : Type 0 where
  pub stun_port : c.stun_port < 2 ^ 16
  pub ws_max_message_size : c.ws_max_message_size < 2 ^ 32
  pub ws_connection_timeout : c.ws_connection_timeout < 2 ^ 16
  pub ws_max_outstanding_pings : c.ws_max_outstanding_pings < 2 ^ 16
  pub ws_ping_interval : c.ws_ping_interval < 2 ^ 16
  pub socks5_bind_port : c.socks5_bind_port < 2 ^ 16
  pub asio_thread_count : c.asio_thread_count < 2 ^ 16
