-- ===== src/Protocol/Syn/RoundTrip.antt =====
-- encode_syn_payload and decode_syn_payload against each other.
use rtcvpn.Common.{
  ℕ, suc, ◌+◌, ◌/◌, ◌%◌, ◌^◌, ◌≤◌, ◌<◌, ◌≡◌, ◌≢◌, ap, ◌∙◌, arith, List, [], ◌∷◌, ◌++◌, some, length,
  get_or, le→ltb, length-append, length-take, take-append, get_or-append, get_or-cons,
}
use rtcvpn.Protocol.Word.{u8, AllBytes}
use rtcvpn.Protocol.Syn.{port_bytes, port_of, encode_syn_payload, decode_syn_payload}

pub port_of-bytes : (port : ℕ) → port < 2 ^ 16 → port_of (u8 (port / 2 ^ 8)) (port % 2 ^ 8) ≡ port
port_of-bytes port h = omega arith

-- The byte at offset `k` behind the host.
pub get_or-behind_host :
    (host rest : List ℕ) (l j k : ℕ)
    → j ≡ suc (length host + k)
    → get_or (l ∷ host ++ rest) j 0 ≡ get_or rest k 0
get_or-behind_host host rest l j k e =
    get_or-cons l (host ++ rest) j (length host + k) 0 e ∙ get_or-append host rest k 0

-- The decoder reads the two bytes behind a host of the stated length, whatever follows them.
pub decode_syn_payload-fields :
    (host rest : List ℕ) (a b : ℕ)
    → decode_syn_payload (length host ∷ host ++ a ∷ b ∷ rest) ≡ some (host, port_of a b)
unfolding decode_syn_payload
decode_syn_payload-fields host rest a b =
    let n = length-append host (a ∷ b ∷ rest) in
    rw (
      le→ltb (length (length host ∷ host ++ a ∷ b ∷ rest)) 1 (omega arith),
      le→ltb (length (length host ∷ host ++ a ∷ b ∷ rest)) (1 + length host + 2) (omega arith),
      take-append host (a ∷ b ∷ rest),
      get_or-behind_host host (a ∷ b ∷ rest) (length host) (1 + length host) 0 (omega arith),
      get_or-behind_host host (a ∷ b ∷ rest) (length host) (2 + length host) 1 (omega arith),
    )

-- A host of at most 255 bytes and a 16-bit port come back from their SYN payload.
pub decode-encode_syn_payload :
    (host : List ℕ) (port : ℕ)
    → length host < 256
    → port < 2 ^ 16
    → decode_syn_payload (encode_syn_payload host port) ≡ some (host, port)
unfolding encode_syn_payload
decode-encode_syn_payload host port h p =
    let fits : u8 (length host) ≡ length host = omega arith in
    rw fits (
      decode_syn_payload-fields host [] (u8 (port / 2 ^ 8)) (port % 2 ^ 8)
      ∙ ap (λ q. some (host, q)) (port_of-bytes port p))

-- A host that is decoded has at most 255 bytes.
pub length-decode_syn_payload :
    (payload host : List ℕ) (port : ℕ)
    → AllBytes payload
    → decode_syn_payload payload ≡ some (host, port)
    → length host < 256
unfolding decode_syn_payload
length-decode_syn_payload [] host port bytes e = cc
length-decode_syn_payload (l ∷ rest) host port bytes e =
    let (small, _) = bytes in ground (arith, length-take l rest)

-- A host of 256 bytes or more does not come back from its SYN payload, whatever the port.
pub decode-encode_syn_payload_long :
    (host : List ℕ) (port : ℕ)
    → 256 ≤ length host
    → decode_syn_payload (encode_syn_payload host port) ≢ some (host, port)
unfolding encode_syn_payload decode_syn_payload
decode-encode_syn_payload_long host port h e =
    ground (arith, length-take (u8 (length host)) (host ++ port_bytes port))
