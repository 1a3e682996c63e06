-- ===== src/Client/Udp/Relay.antt =====
-- What UdpSession makes of a datagram of the browser, and of what comes back.
use rtcvpn.Common.{
  ℕ, ◌+◌, ◌-◌, ◌*◌, ◌^◌, ◌%◌, ◌<◌, ◌≡◌, refl, arith, List, [], ◌∷◌, ◌++◌, true, false, none, some,
  ◌>>=◌, get_elem?, length, drop, length-take, length-drop, take-length, take-append,
  get_elem?-skip, drop-skip, eq→==, le→ltb,
}
use rtcvpn.Protocol.Types.{udp_associate}
use rtcvpn.Protocol.Udp.{encode_udp_payload}
use rtcvpn.Client.Handlers.{slice, text_eq}
use rtcvpn.Client.Udp.{UdpSession, send_data, send_ipv4, send_domain, send_p2p_data, on_datagram}

abbrev ipv4_datagram : ℕ → ℕ → ℕ → ℕ → ℕ → ℕ → List ℕ → List ℕ
ipv4_datagram a b c d hi lo rest = 0 ∷ 0 ∷ 0 ∷ 1 ∷ a ∷ b ∷ c ∷ d ∷ hi ∷ lo ∷ rest

slice_rest :
    (bytes rest : List ℕ) (i n : ℕ)
    → drop i bytes ≡ rest
    → n ≡ length rest
    → slice bytes i n ≡ some rest
unfolding slice
slice_rest bytes rest i n e l =
    rw (e, l, take-length rest, eq→== (length rest) (length rest) refl) refl

abbrev pub domain_datagram : List ℕ → List ℕ → List ℕ
domain_datagram host rest = 0 ∷ 0 ∷ 0 ∷ 3 ∷ length host ∷ host ++ rest

module _ (u : UdpSession) (host : List ℕ) (hi lo x : ℕ) (rest : List ℕ) where
  domain_byte :
      (j i : ℕ)
      → j ≡ 5 + length host + i
      → get_elem? (domain_datagram host (hi ∷ lo ∷ x ∷ rest)) j ≡ get_elem? (hi ∷ lo ∷ x ∷ rest) i
  domain_byte j i e =
      get_elem?-skip (0 ∷ 0 ∷ 0 ∷ 3 ∷ length host ∷ host) (hi ∷ lo ∷ x ∷ rest) j i (omega arith)

  domain_host : slice (domain_datagram host (hi ∷ lo ∷ x ∷ rest)) 5 (length host) ≡ some host
  unfolding slice
  domain_host =
      rw (take-append host (hi ∷ lo ∷ x ∷ rest), eq→== (length host) (length host) refl) refl

  -- Of a datagram with a domain name of less than 256 bytes and at least one byte of data, less
  -- than 2^32 bytes after it, the port that is sent on is made of the second byte of the port and
  -- the first byte of the data, and the data is what follows that byte.
  pub domain_port_shifted :
      length host < 256
      → length rest < 2 ^ 32
      → send_p2p_data u (domain_datagram host (hi ∷ lo ∷ x ∷ rest)) (8 + length host + length rest)
        ≡ some (
            send_data u.session_id
              (encode_udp_payload host ((lo * 2 ^ 8 + x) % 2 ^ 16) rest)
              udp_associate
            ∷ [])
  unfolding send_p2p_data
  domain_port_shifted small fits =
      rw
        (
          le→ltb (8 + length host + length rest) 5 (omega arith),
          le→ltb (8 + length host + length rest) (5 + length host + 2) (omega arith),
          domain_host,
          domain_byte (6 + length host) 1 (omega arith),
          domain_byte (7 + length host) 2 (omega arith),
          slice_rest (domain_datagram host (hi ∷ lo ∷ x ∷ rest)) rest (8 + length host)
              ((8 + length host + length rest + (2 ^ 64 - (8 + length host))) % 2 ^ 64)
              (drop-skip (0 ∷ 0 ∷ 0 ∷ 3 ∷ length host ∷ host) (hi ∷ lo ∷ x ∷ rest) (8 + length host)
                3 (omega arith))
              (omega arith),
        )
        refl

slice-none : (bytes : List ℕ) (i n : ℕ) → length bytes < n → slice bytes i n ≡ none
unfolding slice
slice-none bytes i n h = ground (arith, length-take n (drop i bytes), length-drop i bytes)

module _ (u : UdpSession) (host : List ℕ) (hi lo : ℕ) (stale : List ℕ) where
  -- A datagram with a domain name of less than 256 bytes and no data is a fault, whatever stands
  -- behind it in memory.
  pub empty_domain_datagram :
      length host < 256
      → length (domain_datagram host (hi ∷ lo ∷ stale)) < 2 ^ 64 - 1
      → send_p2p_data u (domain_datagram host (hi ∷ lo ∷ stale)) (7 + length host) ≡ none
  unfolding send_p2p_data
  empty_domain_datagram small memory =
      rw
        (
          le→ltb (7 + length host) 5 (omega arith),
          le→ltb (7 + length host) (5 + length host + 2) (omega arith),
          slice-none (domain_datagram host (hi ∷ lo ∷ stale)) (8 + length host)
              ((7 + length host + (2 ^ 64 - (8 + length host))) % 2 ^ 64) (omega arith),
        )
        (ground arith)

text_eq_same : (t : List ℕ) → text_eq t t ≡ true
text_eq_same [] = refl
text_eq_same (c ∷ cs) = ground (arith, text_eq_same cs)

-- Once the browser's endpoint is known, a datagram from another address is dropped but its address
-- is recorded, so that a second one from there is forwarded.
pub source_change :
    (u : UdpSession) (ip : List ℕ) (port : ℕ) (bytes : List ℕ) (n : ℕ)
    → u.client_known ≡ true
    → text_eq ip u.remote_ip ≡ false
    → (on_datagram u ip port bytes n ≡ some (record u { remote_ip = ip }, []))
      × (on_datagram (record u { remote_ip = ip }) ip port bytes n ≡ (
          send_p2p_data u bytes n >>= λ es.
          some (record u { remote_ip = ip; remote_port = port }, es)))
unfolding on_datagram send_p2p_data send_ipv4 send_domain
source_change u ip port bytes n known other = (ground arith, ground (arith, text_eq_same ip))
