-- ===== src/Protocol/Frame.antt =====
-- FrameHeader and make_frame: [stream_id: 4B][type: 1B][protocol: 1B][payload].
pub mod RoundTrip
pub mod Bijection
use rtcvpn.Common.{
  ℕ, ◌+◌, ◌/◌, ◌%◌, ◌^◌, ◌≤◌, ◌<◌, ◌≡◌, refl, sym, ap, ◌∙◌, arith, List, [], ◌∷◌, ◌++◌, Option,
  none, some, ltb, if◌then◌else◌, length, get_or, drop, ◌>>=◌,
}
use rtcvpn.Protocol.Types.{
  FrameType, Protocol, frame_type_byte, frame_type_of, protocol_byte, protocol_of, IsNamedFrameType,
  IsNamedProtocol, frame_type_of-byte, protocol_of-byte, byte-frame_type_of, byte-protocol_of,
}
use rtcvpn.Protocol.Word.{
  u8, IsByte, AllBytes, store32, load32, hton32, big_endian32, store32-hton32, hton32-load32,
  from_big_endian32, from_big_endian32-bytes,
}

pub record FrameHeader : Type 0 where
  pub stream_id : ℕ
  pub type : FrameType
  pub protocol : Protocol

-- FrameHeader::kSize.
abbrev pub header_size : ℕ
header_size = 6

-- FrameHeader::encode; the six bytes that it writes.
unfoldable pub encode : FrameHeader → List ℕ
encode h = store32 (hton32 h.stream_id) ++ frame_type_byte h.type ∷ protocol_byte h.protocol ∷ []

-- FrameHeader::decode; `none` is the result false.
unfoldable pub decode : List ℕ → Option FrameHeader
decode data_bytes =
    if ltb (length data_bytes) header_size
    then none
    else some (record {
      stream_id = hton32 (load32 data_bytes);
      type = frame_type_of (get_or data_bytes 4 0);
      protocol = protocol_of (get_or data_bytes 5 0);
    })

unfoldable pub make_frame : ℕ → FrameType → Protocol → List ℕ → List ℕ
unfolding encode
make_frame sid t p payload = encode (record { stream_id = sid; type = t; protocol = p }) ++ payload

-- A header whose enumerations are named and whose stream id is a 32-bit word.
pub record IsValidHeader (h : FrameHeader) : Type 0 where
  pub sid : h.stream_id < 2 ^ 32
  pub named_type : IsNamedFrameType h.type
  pub named_protocol : IsNamedProtocol h.protocol
