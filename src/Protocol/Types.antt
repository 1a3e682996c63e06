-- ===== src/Protocol/Types.antt =====
-- The enumerations of session_protocol.h. A value of an enum class over uint8_t that no
-- enumerator names is `raw b`: `static_cast` from a byte can produce it.
use rtcvpn.Common.{ℕ, ◌≡◌, refl, arith, ◌==◌, if◌then◌else◌}

pub data WriteQueueStatus : Type 0 where
  danger safety : WriteQueueStatus

pub data CtrlType : Type 0 where
  receive pause : CtrlType
  raw : ℕ → CtrlType

pub data FrameType : Type 0 where
  syn synack data_frame fin data_ctrl : FrameType
  raw : ℕ → FrameType

pub data Protocol : Type 0 where
  unknown socks5_connect http_plain https_connect udp_associate : Protocol
  raw : ℕ → Protocol

pub data Phase : Type 0 where
  wait_greeting_version wait_socks_methods wait_socks_tcp wait_socks_udp : Phase
  wait_socks_ipv4 wait_socks_domain wait_socks_udp_addr wait_http_request_headers : Phase
  connecting connected closed : Phase

-- `static_cast<uint8_t>`.
unfoldable pub frame_type_byte : FrameType → ℕ
frame_type_byte syn = 0x01
frame_type_byte synack = 0x02
frame_type_byte data_frame = 0x03
frame_type_byte fin = 0x04
frame_type_byte data_ctrl = 0x0D
frame_type_byte (FrameType.raw b) = b

-- `static_cast<FrameType>`.
unfoldable pub frame_type_of : ℕ → FrameType
frame_type_of b =
    if b == 0x01
    then syn
    else if b == 0x02
    then synack
    else if b == 0x03
    then data_frame
    else if b == 0x04
    then fin
    else if b == 0x0D
    then data_ctrl
    else FrameType.raw b

unfoldable pub protocol_byte : Protocol → ℕ
protocol_byte unknown = 0
protocol_byte socks5_connect = 1
protocol_byte http_plain = 2
protocol_byte https_connect = 3
protocol_byte udp_associate = 4
protocol_byte (Protocol.raw b) = b

unfoldable pub protocol_of : ℕ → Protocol
protocol_of b =
    if b == 0
    then unknown
    else if b == 1
    then socks5_connect
    else if b == 2
    then http_plain
    else if b == 3
    then https_connect
    else if b == 4
    then udp_associate
    else Protocol.raw b

-- `CtrlType(payload[0])`.
unfoldable pub ctrl_type_of : ℕ → CtrlType
ctrl_type_of b = if b == 0 then receive else if b == 1 then pause else CtrlType.raw b

-- The values that an enumerator names.
abbrev pub IsNamedFrameType : FrameType → Type 0
IsNamedFrameType (FrameType.raw b) = ⊥
IsNamedFrameType _ = Unit {0}

abbrev pub IsNamedProtocol : Protocol → Type 0
IsNamedProtocol (Protocol.raw b) = ⊥
IsNamedProtocol _ = Unit {0}

pub frame_type_of-byte :
    (t : FrameType) → IsNamedFrameType t → frame_type_of (frame_type_byte t) ≡ t
unfolding frame_type_of frame_type_byte
frame_type_of-byte (FrameType.raw b) h = absurd h
frame_type_of-byte syn h = refl
frame_type_of-byte _ h = refl

pub protocol_of-byte : (p : Protocol) → IsNamedProtocol p → protocol_of (protocol_byte p) ≡ p
unfolding protocol_of protocol_byte
protocol_of-byte (Protocol.raw b) h = absurd h
protocol_of-byte unknown h = refl
protocol_of-byte _ h = refl

pub byte-frame_type_of : (b : ℕ) → frame_type_byte (frame_type_of b) ≡ b
unfolding frame_type_of frame_type_byte
byte-frame_type_of b = ground arith

pub byte-protocol_of : (b : ℕ) → protocol_byte (protocol_of b) ≡ b
unfolding protocol_of protocol_byte
byte-protocol_of b = ground arith
