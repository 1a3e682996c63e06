-- ===== src/Protocol/Message.antt =====
-- packMessage and unpackMessage: a message on the data channel is [len: 4B, big-endian][bytes].
pub mod RoundTrip
use rtcvpn.Common.{
  ℕ, ◌-◌, ◌^◌, List, ◌++◌, Option, none, some, ltb, if◌then◌else◌, length, take, drop,
}
use rtcvpn.Protocol.Word.{store32, load32, hton32}

abbrev pub uint32_max : ℕ
uint32_max = 2 ^ 32 - 1

-- `none` is the std::length_error.
unfoldable pub pack_message : List ℕ → Option (List ℕ)
pack_message bytes =
    if ltb uint32_max (length bytes) then none else some (store32 (hton32 (length bytes)) ++ bytes)

pub record UnpackedMessage : Type 0 where
  pub payload : List ℕ
  pub len : ℕ

-- The payload is the `len` bytes behind the length field.
unfoldable pub unpack_message : List ℕ → Option UnpackedMessage
unpack_message bytes =
    let len = hton32 (load32 bytes) in
    if ltb (length bytes) 4
    then none
    else if ltb (length bytes - 4) len
    then none
    else some (record { payload = take len (drop 4 bytes); len = len })
