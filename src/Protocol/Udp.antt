-- ===== src/Protocol/Udp.antt =====
-- encode_udp_payload and decode_udp_payload:
-- [host_len: 1B][host][port: 2B][data_len: 4B][data], numbers big-endian.
pub mod RoundTrip
use rtcvpn.Common.{
  ℕ, ◌+◌, ◌-◌, ◌*◌, ◌/◌, ◌%◌, ◌^◌, List, [], ◌∷◌, ◌++◌, Bool, true, false, ltb, if◌then◌else◌,
  length, get_or, take, drop,
}
use rtcvpn.Protocol.Word.{u8, u16, u32, big_endian32, from_big_endian32}
use rtcvpn.Protocol.Syn.{port_bytes, port_of}

pub record Datagram : Type 0 where
  pub host : List ℕ
  pub port : ℕ
  pub payload : List ℕ

-- `dlen` is `static_cast<uint32_t>(data_len)`.
unfoldable pub encode_udp_payload : List ℕ → ℕ → List ℕ → List ℕ
encode_udp_payload host port payload =
    let dlen = u32 (length payload) in
    u8 (length host) ∷ host ++ (port_bytes port ++ (big_endian32 dlen ++ payload))

-- What decode_udp_payload leaves in its output arguments. `filled` is whether it returned true;
-- the early returns leave the outputs that were not yet assigned as the caller passed them.
pub record Decoded : Type 0 where
  pub filled : Bool
  pub datagram : Datagram

-- The outputs on entry are `out`; a null `data` is an empty payload, as the first lines make it.
-- The buffer is not null. Where a byte is read its index is below `len`.
unfoldable pub decode_udp_payload : List ℕ → Datagram → Decoded
decode_udp_payload buf out =
    let host_len = get_or buf 0 0 in
    let pos = 1 + host_len in
    let host = take host_len (drop 1 buf) in
    let port = port_of (get_or buf pos 0) (get_or buf (pos + 1) 0) in
    let data_len =
      from_big_endian32 (get_or buf (pos + 2) 0) (get_or buf (pos + 3) 0) (get_or buf (pos + 4) 0)
        (get_or buf (pos + 5) 0) in
    let payload = take data_len (drop (pos + 6) buf) in
    if ltb (length buf) 1
    then record { filled = false; datagram = out }
    else if ltb (length buf - 1) (host_len + 2 + 4)
    then record { filled = false; datagram = out }
    else if ltb (length buf - (pos + 6)) data_len
    then record { filled = false; datagram = record out { host = host; port = port } }
    else record { filled = true; datagram = record { host = host; port = port; payload = payload } }
