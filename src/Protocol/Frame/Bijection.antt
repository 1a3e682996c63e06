-- ===== src/Protocol/Frame/Bijection.antt =====
-- Frames and the bytes that stand for them are the same type.
use std.Equiv.{IsEquiv, Iso, iso_to_equiv}
use mathlib.Core.Path.{subst}
use mathlib.Core.HLevel.{Σ_prop_path, ×_prop}
use native.Mathlib.Bridge.{le_prop}
use rtcvpn.Common.{
  ℕ, ◌^◌, ◌≤◌, ◌<◌, ◌≡◌, refl, sym, ap, ◌∙◌, arith, List, [], ◌∷◌, some, some_inj, length, drop,
  get_or, le→ltb,
}
use rtcvpn.Protocol.Types.{
  FrameType, Protocol, frame_type_byte, frame_type_of, protocol_byte, protocol_of,
  byte-frame_type_of, byte-protocol_of,
}
use rtcvpn.Protocol.Word.{IsByte, AllBytes, load32, hton32, mod-IsByte}
use rtcvpn.Protocol.Frame.{FrameHeader, header_size, decode, make_frame}
use rtcvpn.Protocol.Frame.RoundTrip.{
  make_frame_bytes, decode_bytes, make_frame-decode, decode-header_of_bytes, decode-eq-none,
}

-- Bytes that are long enough for a header.
abbrev pub Wire : Type 0
Wire = (d : List ℕ) × (AllBytes d × (header_size ≤ length d))

-- The values of an enumeration over a byte that the program can hold: those that a cast from their
-- byte gives.
abbrev pub IsFrameTypeByte : FrameType → Type 0
IsFrameTypeByte t = (frame_type_of (frame_type_byte t) ≡ t) × IsByte (frame_type_byte t)

abbrev pub IsProtocolByte : Protocol → Type 0
IsProtocolByte p = (protocol_of (protocol_byte p) ≡ p) × IsByte (protocol_byte p)

abbrev pub IsFrame : FrameHeader × List ℕ → Type 0
IsFrame (h, payload) =
    (h.stream_id < 2 ^ 32)
    × (IsFrameTypeByte h.type × (IsProtocolByte h.protocol × AllBytes payload))

abbrev pub Frame : Type 0
Frame = (f : FrameHeader × List ℕ) × IsFrame f

FrameType-set : IsSet FrameType
FrameType-set = hlevel

Protocol-set : IsSet Protocol
Protocol-set = hlevel

AllBytes-prop : (d : List ℕ) → IsProp (AllBytes d)
AllBytes-prop [] = hlevel
AllBytes-prop (b ∷ d) = ×_prop le_prop (AllBytes-prop d)

IsFrame-prop : (f : FrameHeader × List ℕ) → IsProp (IsFrame f)
IsFrame-prop (h, payload) = ×_prop le_prop (
    ×_prop (×_prop (FrameType-set _ _) le_prop)
      (×_prop (×_prop (Protocol-set _ _) le_prop) (AllBytes-prop payload)))

Wire-prop : (d : List ℕ) → IsProp (AllBytes d × (header_size ≤ length d))
Wire-prop d = ×_prop (AllBytes-prop d) le_prop

pub frame_bytes :
    (f : FrameHeader × List ℕ)
    → IsFrame f
    → AllBytes (make_frame f.0.stream_id f.0.type f.0.protocol f.1)
      × (header_size ≤ length (make_frame f.0.stream_id f.0.type f.0.protocol f.1))
frame_bytes (h, payload) v = rw (make_frame_bytes h.stream_id h.type h.protocol payload) (
  (mod-IsByte _, (mod-IsByte _, (mod-IsByte _, (mod-IsByte _, (v.1.0.1, (v.1.1.0.1, v.1.1.1)))))),
  omega arith,
)

-- A frame as make_frame builds it.
abbrev pub to_wire : Frame → Wire
to_wire ((h, payload), v) =
    (make_frame h.stream_id h.type h.protocol payload, frame_bytes (h, payload) v)

header_IsFrame :
    (d : List ℕ) (h : FrameHeader)
    → AllBytes d
    → decode d ≡ some h
    → IsFrame (h, drop header_size d)
header_IsFrame (a ∷ b ∷ c ∷ e ∷ t ∷ p ∷ rest) h (ha, (hb, (hc, (he, (ht, (hp, hr)))))) eq =
    subst (λ (k : FrameHeader). IsFrame (k, rest))
      (some_inj (sym (decode-header_of_bytes a b c e t p rest ha hb hc he) ∙ eq))
      (
        omega (arith, ha, hb, hc, he),
        (
          (ap frame_type_of (byte-frame_type_of t), rw (byte-frame_type_of t) ht),
          ((ap protocol_of (byte-protocol_of p), rw (byte-protocol_of p) hp), hr),
        ),
      )
header_IsFrame d h _ eq = cc (decode-eq-none d (omega arith))

header_of : List ℕ → FrameHeader
header_of d = record {
  stream_id = hton32 (load32 d);
  type = frame_type_of (get_or d 4 0);
  protocol = protocol_of (get_or d 5 0);
}

decode-header_of : (d : List ℕ) → header_size ≤ length d → decode d ≡ some (header_of d)
unfolding decode header_of
decode-header_of d long = rw (le→ltb (length d) header_size long) refl

of_wire : Wire → Frame
of_wire (d, (bytes, long)) = (
  (header_of d, drop header_size d),
  header_IsFrame d (header_of d) bytes (decode-header_of d long),
)

to_wire-of_wire : (w : Wire) → to_wire (of_wire w) ≡ w
unfolding of_wire
to_wire-of_wire (d, (bytes, long)) =
    Σ_prop_path Wire-prop (make_frame-decode d (header_of d) bytes (decode-header_of d long))

-- The header and the payload of a frame are found again.
decode-to_wire : (f : Frame) → decode (to_wire f).0 ≡ some f.0.0
decode-to_wire ((h, payload), v) =
    ap decode (make_frame_bytes h.stream_id h.type h.protocol payload)
    ∙ decode_bytes h.stream_id (frame_type_byte h.type) (protocol_byte h.protocol) payload v.0
    ∙ rw (v.1.0.0, v.1.1.0.0) refl

payload-to_wire : (f : Frame) → drop header_size (to_wire f).0 ≡ f.0.1
payload-to_wire ((h, payload), v) =
    ap (drop header_size) (make_frame_bytes h.stream_id h.type h.protocol payload)

of_wire-to_wire : (f : Frame) → of_wire (to_wire f) ≡ f
unfolding of_wire
of_wire-to_wire f =
    let head = some_inj (sym (decode-header_of (to_wire f).0 (to_wire f).1.1) ∙ decode-to_wire f) in
    Σ_prop_path IsFrame-prop (λ i. (head i, payload-to_wire f i))

wire_iso : Iso Frame Wire
wire_iso = record { fun = to_wire; inv = of_wire; rinv = to_wire-of_wire; linv = of_wire-to_wire }

-- make_frame is an equivalence between the frames, headers with a 32-bit stream id and enumerations
-- that a cast from a byte gives, with payloads of bytes, and the sequences of at least six bytes:
-- each such sequence is one frame and no other. decode gives the header of that frame, and its
-- payload follows the six bytes of the header.
pub make_frame_IsEquiv :
    IsEquiv to_wire
    × ((f : Frame) → (decode (to_wire f).0 ≡ some f.0.0) × (drop header_size (to_wire f).0 ≡ f.0.1))
unfolding wire_iso
make_frame_IsEquiv = ((iso_to_equiv wire_iso).1, λ f. (decode-to_wire f, payload-to_wire f))
