-- ===== src/Protocol/Frame/RoundTrip.antt =====
-- FrameHeader::encode and decode, and make_frame, against each other.
use mathlib.Core.Path.{subst}
use rtcvpn.Common.{
  some_inj, ℕ, ◌^◌, ◌<◌, ◌≡◌, refl, sym, ap, ◌∙◌, arith, List, [], ◌∷◌, ◌++◌, none, some, length,
  drop, le→ltb, lt→ltb,
}
use rtcvpn.Protocol.Types.{
  FrameType, Protocol, frame_type_byte, frame_type_of, protocol_byte, protocol_of,
  frame_type_of-byte, protocol_of-byte, byte-frame_type_of, byte-protocol_of,
}
use rtcvpn.Protocol.Word.{
  IsByte, AllBytes, big_endian32, store32-hton32, hton32-load32, from_big_endian32,
  hton32-load32_big_endian, big_endian32-load,
}
use rtcvpn.Protocol.Frame.{FrameHeader, header_size, decode, make_frame, IsValidHeader}

-- A frame is the big-endian stream id, the type, the protocol and the payload.
pub make_frame_bytes :
    (sid : ℕ) (t : FrameType) (p : Protocol) (payload : List ℕ)
    → make_frame sid t p payload ≡ big_endian32 sid ++ frame_type_byte t ∷ protocol_byte p ∷ payload
unfolding make_frame
make_frame_bytes sid t p payload =
    ap (λ b. (b ++ frame_type_byte t ∷ protocol_byte p ∷ []) ++ payload) (store32-hton32 sid)

-- A header decoded from six bytes, with nothing assumed of the type and the protocol.
pub decode_bytes :
    (sid t p : ℕ) (payload : List ℕ)
    → sid < 2 ^ 32
    → decode (big_endian32 sid ++ t ∷ p ∷ payload)
      ≡ some (record { stream_id = sid; type = frame_type_of t; protocol = protocol_of p })
unfolding decode
decode_bytes sid t p payload h = rw (
  le→ltb (length (big_endian32 sid ++ t ∷ p ∷ payload)) header_size (omega arith),
  hton32-load32_big_endian sid (t ∷ p ∷ payload) h,
)

-- For a header with a 32-bit stream id and a named type and protocol, decode gives back the header
-- of a frame that make_frame built, and the payload follows the six header bytes.
pub decode-make_frame :
    (h : FrameHeader) (payload : List ℕ)
    → IsValidHeader h
    → (decode (make_frame h.stream_id h.type h.protocol payload) ≡ some h)
      × (drop header_size (make_frame h.stream_id h.type h.protocol payload) ≡ payload)
decode-make_frame h payload v = rw make_frame_bytes (
  decode_bytes _ _ _ payload v.sid
      ∙ rw (frame_type_of-byte h.type v.named_type, protocol_of-byte h.protocol v.named_protocol),
  refl,
)

-- Bytes shorter than a header are refused.
pub decode-eq-none : (d : List ℕ) → length d < header_size → decode d ≡ none
unfolding decode
decode-eq-none d h = rw (lt→ltb _ _ h)

abbrev pub header_of_bytes : ℕ → ℕ → ℕ → ℕ → ℕ → ℕ → FrameHeader
header_of_bytes a b c d t p = record {
  stream_id = from_big_endian32 a b c d;
  type = frame_type_of t;
  protocol = protocol_of p;
}

pub decode-header_of_bytes :
    (a b c d t p : ℕ) (rest : List ℕ)
    → IsByte a
    → IsByte b
    → IsByte c
    → IsByte d
    → decode (a ∷ b ∷ c ∷ d ∷ t ∷ p ∷ rest) ≡ some (header_of_bytes a b c d t p)
unfolding decode
decode-header_of_bytes a b c d t p rest ha hb hc hd = rw (
  le→ltb (length (a ∷ b ∷ c ∷ d ∷ t ∷ p ∷ rest)) header_size (omega arith),
  hton32-load32 a b c d (t ∷ p ∷ rest) ha hb hc hd,
)

-- Bytes that decode to a header are the frame that make_frame builds from that header and what
-- follows the first six bytes.
pub make_frame-decode :
    (d : List ℕ) (h : FrameHeader)
    → AllBytes d
    → decode d ≡ some h
    → make_frame h.stream_id h.type h.protocol (drop header_size d) ≡ d
make_frame-decode (a ∷ b ∷ c ∷ e ∷ t ∷ p ∷ rest) h (ha, (hb, (hc, (he, _)))) eq =
    let same = some_inj (sym (decode-header_of_bytes a b c e t p rest ha hb hc he) ∙ eq) in
    subst
      (λ (k : FrameHeader).
        make_frame k.stream_id k.type k.protocol rest ≡ a ∷ b ∷ c ∷ e ∷ t ∷ p ∷ rest)
      same
      (make_frame_bytes (from_big_endian32 a b c e) (frame_type_of t) (protocol_of p) rest
        ∙ rw (byte-frame_type_of t, byte-protocol_of p)
            (ap (λ l. l ++ t ∷ p ∷ rest) (big_endian32-load a b c e ha hb hc he)))
make_frame-decode d h _ eq = cc (decode-eq-none d (omega arith))
