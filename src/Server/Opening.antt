-- ===== src/Server/Opening.antt =====
-- What a SYN leads to at the server.
use rtcvpn.Common.{ℕ, ◌<◌, ◌≡◌, refl, arith, List, [], ◌∷◌, true, none, some, ◌⊎◌}
use rtcvpn.Protocol.Types.{Protocol, protocol_of}
use rtcvpn.Server.{
  Kind, create_session, set_on_data, set_on_close, set_on_data_ctrl, new_tunnel, kind_of,
  start_interface, on_syn,
}
use rtcvpn.Server.Closing.{IsOpen}

-- A SYN with a protocol that is served creates the session of its stream with three callbacks and
-- starts its interface, and the tunnel is open.
pub on_syn_starts :
    (sid : ℕ) (host : List ℕ) (port : ℕ) (p : Protocol) (k : Kind)
    → kind_of p ≡ some k
    → (on_syn sid host port p
        ≡ some (
          record (new_tunnel sid p) { session = true },
          create_session sid
              ∷ set_on_data sid
              ∷ set_on_close sid
              ∷ set_on_data_ctrl sid
              ∷ start_interface k host port
              ∷ [],
        ))
      × IsOpen (record (new_tunnel sid p) { session = true }) k
unfolding on_syn
on_syn_starts sid host port p k e = (
  rw e refl,
  record {
    has_kind = e;
    has_socket = refl;
    not_closed = refl;
    interface_open = refl;
    peer_open = refl;
    bound = refl;
  },
)

-- A SYN whose protocol byte is 0 or above 4 makes the SYN handler fault, whatever its stream id,
-- host and port.
pub on_syn_faults :
    (sid : ℕ) (host : List ℕ) (port b : ℕ)
    → (b ≡ 0) ⊎ (4 < b)
    → on_syn sid host port (protocol_of b) ≡ none
unfolding on_syn protocol_of kind_of
on_syn_faults sid host port b e = ground arith
