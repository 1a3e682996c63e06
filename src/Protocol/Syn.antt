-- ===== src/Protocol/Syn.antt =====
-- encode_syn_payload and decode_syn_payload: [host_len: 1B][host][port: 2B, big-endian].
pub mod RoundTrip
use rtcvpn.Common.{
  ℕ, ◌+◌, ◌*◌, ◌/◌, ◌%◌, ◌^◌, List, [], ◌∷◌, ◌++◌, Option, none, some, ltb, if◌then◌else◌, length,
  get_or, take, drop,
}
use rtcvpn.Protocol.Word.{u8, u16}

-- `static_cast<uint8_t>(port >> 8)` and `static_cast<uint8_t>(port & 0xFF)`.
abbrev pub port_bytes : ℕ → List ℕ
port_bytes port = u8 (port / 2 ^ 8) ∷ port % 2 ^ 8 ∷ []

-- `(static_cast<uint16_t>(hi) << 8) | lo` for two bytes, assigned to a uint16_t.
abbrev pub port_of : ℕ → ℕ → ℕ
port_of hi lo = u16 (hi * 2 ^ 8 + lo)

unfoldable pub encode_syn_payload : List ℕ → ℕ → List ℕ
encode_syn_payload host port = u8 (length host) ∷ host ++ port_bytes port

-- `none` is the result false; a read at an index below `len` is in bounds.
unfoldable pub decode_syn_payload : List ℕ → Option (List ℕ × ℕ)
decode_syn_payload payload =
    let hlen = get_or payload 0 0 in
    if ltb (length payload) 1
    then none
    else if ltb (length payload) (1 + hlen + 2)
    then none
    else some (
      take hlen (drop 1 payload),
      port_of (get_or payload (1 + hlen) 0) (get_or payload (2 + hlen) 0),
    )
