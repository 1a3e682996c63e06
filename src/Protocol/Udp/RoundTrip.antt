-- ===== src/Protocol/Udp/RoundTrip.antt =====
-- encode_udp_payload and decode_udp_payload against each other.
use native.Mathlib.Nat.{le_of_eq}
use rtcvpn.Common.{
  ℕ, suc, ◌+◌, ◌-◌, ◌^◌, ◌≤◌, ◌<◌, ◌≡◌, refl, ◌∙◌, arith, List, ◌∷◌, ◌++◌, true, false, ltb, length,
  get_or, take, le→ltb, length-append, take-append, drop-skip, get_or-take, length-take, Bool-cases,
  ltb→lt, zero, inl, inr, drop-cons, take-length,
}
use rtcvpn.Protocol.Word.{u8, u32, big_endian32, from_big_endian32, from_big_endian32-bytes}
use rtcvpn.Protocol.Syn.{port_bytes, port_of}
use rtcvpn.Protocol.Syn.RoundTrip.{get_or-behind_host, port_of-bytes}
use rtcvpn.Protocol.Udp.{Datagram, encode_udp_payload, decode_udp_payload}

-- The decoder on a host of the stated length, six bytes and the rest.
decode_udp_payload-fields :
    (host rest : List ℕ) (p q a b c d : ℕ) (out : Datagram)
    → from_big_endian32 a b c d ≤ length rest
    → decode_udp_payload (length host ∷ host ++ p ∷ q ∷ a ∷ b ∷ c ∷ d ∷ rest) out ≡ record {
      filled = true;
      datagram = record {
        host = host;
        port = port_of p q;
        payload = take (from_big_endian32 a b c d) rest;
      };
    }
unfolding decode_udp_payload
decode_udp_payload-fields host rest p q a b c d out h =
    let tail = p ∷ q ∷ a ∷ b ∷ c ∷ d ∷ rest in
    let l = length host in
    let n = length-append host tail in
    rw (
      get_or-behind_host host tail l (1 + l) 0 (omega arith),
      get_or-behind_host host tail l (1 + l + 1) 1 (omega arith),
      get_or-behind_host host tail l (1 + l + 2) 2 (omega arith),
      get_or-behind_host host tail l (1 + l + 3) 3 (omega arith),
      get_or-behind_host host tail l (1 + l + 4) 4 (omega arith),
      get_or-behind_host host tail l (1 + l + 5) 5 (omega arith),
      drop-cons l (host ++ tail) (1 + l + 6) (l + 6) (omega arith),
      drop-skip host tail (l + 6) 6 refl,
      take-append host tail,
      le→ltb (length (l ∷ host ++ tail)) 1 (omega arith),
      le→ltb (length (l ∷ host ++ tail) - 1) (l + 2 + 4) (omega arith),
      le→ltb (length (l ∷ host ++ tail) - (1 + l + 6)) (from_big_endian32 a b c d) (omega arith),
    )

-- A host of at most 255 bytes, a 16-bit port and data of less than 2^32 bytes come back from their
-- UDP payload, whatever the outputs held before.
pub decode-encode_udp_payload :
    (host : List ℕ) (port : ℕ) (payload : List ℕ) (out : Datagram)
    → length host < 256
    → port < 2 ^ 16
    → length payload < 2 ^ 32
    → decode_udp_payload (encode_udp_payload host port payload) out
      ≡ record { filled = true; datagram = record { host = host; port = port; payload = payload } }
unfolding encode_udp_payload
decode-encode_udp_payload host port payload out h p n =
    let len = length payload in
    let fits : u8 (length host) ≡ length host = omega arith in
    let word : u32 len ≡ len = omega arith in
    let whole = from_big_endian32-bytes len n in
    rw (fits, word)
      (decode_udp_payload-fields host payload _ _ _ _ _ _ out (le_of_eq whole)
        ∙ rw (whole, port_of-bytes port p, take-length payload))

-- The number of data bytes that an encoded buffer announces, read at its place behind the host.
abbrev announced : List ℕ → ℕ → ℕ
announced buf pos =
    from_big_endian32 (get_or buf (pos + 2) 0) (get_or buf (pos + 3) 0) (get_or buf (pos + 4) 0)
      (get_or buf (pos + 5) 0)

announced-encode_udp_payload :
    (host : List ℕ) (port : ℕ) (payload : List ℕ)
    → length payload < 2 ^ 32
    → announced (encode_udp_payload host port payload) (1 + length host) ≡ length payload
unfolding encode_udp_payload
announced-encode_udp_payload host port payload n =
    let tail = port_bytes port ++ (big_endian32 (u32 (length payload)) ++ payload) in
    let l = length host in
    rw
      (
        get_or-behind_host host tail (u8 l) (1 + l + 2) 2 (omega arith),
        get_or-behind_host host tail (u8 l) (1 + l + 3) 3 (omega arith),
        get_or-behind_host host tail (u8 l) (1 + l + 4) 4 (omega arith),
        get_or-behind_host host tail (u8 l) (1 + l + 5) 5 (omega arith),
      )
      (let word : u32 (length payload) ≡ length payload = omega arith in
        rw word (from_big_endian32-bytes (length payload) n))

announced-take :
    (buf : List ℕ) (k pos : ℕ) → pos + 5 < k → announced (take k buf) pos ≡ announced buf pos
announced-take buf k pos h = rw (
  get_or-take k buf (pos + 2) 0 (omega arith),
  get_or-take k buf (pos + 3) 0 (omega arith),
  get_or-take k buf (pos + 4) 0 (omega arith),
  get_or-take k buf (pos + 5) 0 (omega arith),
)

length-encode_udp_payload :
    (host : List ℕ) (port : ℕ) (payload : List ℕ)
    → length (encode_udp_payload host port payload) ≡ length host + length payload + 7
unfolding encode_udp_payload
length-encode_udp_payload host port payload = omega (
  arith,
  length-append host (port_bytes port ++ (big_endian32 (u32 (length payload)) ++ payload)),
)

-- The decoder fills nothing into the payload unless the announced bytes are there.
decode_udp_payload_short :
    (buf : List ℕ) (out : Datagram)
    → length buf < 1 + get_or buf 0 0 + 6 + announced buf (1 + get_or buf 0 0)
    → ((decode_udp_payload buf out).filled ≡ false)
      × ((decode_udp_payload buf out).datagram.payload ≡ out.payload)
unfolding decode_udp_payload
decode_udp_payload_short buf out h = ground arith

take_short :
    (buf : List ℕ) (k l p : ℕ)
    → get_or buf 0 0 ≡ l
    → announced buf (1 + l) ≡ p
    → length buf ≡ l + p + 7
    → k < length buf
    → (n : ℕ) → n ≡ get_or (take k buf) 0 0
    → length (take k buf) < 1 + n + 6 + announced (take k buf) (1 + n)
take_short buf zero l p first size total lt n e = omega (arith, length-take zero buf)
take_short buf (suc k) l p first size total lt n e =
    let same : n ≡ l = e ∙ get_or-take (suc k) buf 0 0 (omega arith) ∙ first in
    elim (Bool-cases (ltb (1 + l + 5) (suc k))) [
      | inl all ↦
          rw (same, announced-take buf (suc k) (1 + l) (ltb→lt _ _ all), size)
            (omega (arith, length-take (suc k) buf))
      | inr few ↦
          rw same
            (let few' : suc k ≤ 1 + l + 5 = ground arith in omega (arith, length-take (suc k) buf))
    ]

first-encode_udp_payload :
    (host : List ℕ) (port : ℕ) (payload : List ℕ)
    → length host < 256
    → get_or (encode_udp_payload host port payload) 0 0 ≡ length host
unfolding encode_udp_payload
first-encode_udp_payload host port payload h = omega arith

-- A UDP payload for a host of at most 255 bytes and data of less than 2^32 bytes that lost bytes at
-- its end is refused, and the payload output stays as it was.
pub decode_udp_payload_truncated :
    (host : List ℕ) (port : ℕ) (payload : List ℕ) (k : ℕ) (out : Datagram)
    → length host < 256
    → length payload < 2 ^ 32
    → k < length (encode_udp_payload host port payload)
    → ((decode_udp_payload (take k (encode_udp_payload host port payload)) out).filled ≡ false)
      × ((decode_udp_payload (take k (encode_udp_payload host port payload)) out).datagram.payload
          ≡ out.payload)
decode_udp_payload_truncated host port payload k out h n lt = decode_udp_payload_short _ out (
    take_short (encode_udp_payload host port payload) k (length host) (length payload)
      (first-encode_udp_payload host port payload h)
      (announced-encode_udp_payload host port payload n)
      (length-encode_udp_payload host port payload) lt _ refl)
