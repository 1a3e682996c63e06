-- ===== src/Protocol/Tests.antt =====
-- Round trips of small frames and payloads.
use rtcvpn.Common.{◌≡◌, [], ◌∷◌, true, codes, arith}
use rtcvpn.Protocol.Udp.{Datagram, encode_udp_payload, decode_udp_payload}
use rtcvpn.Protocol.Udp.RoundTrip.{decode-encode_udp_payload}

abbrev blank : Datagram
blank = record { host = []; port = 0; payload = [] }

decode-encode_udp_payload_example :
    decode_udp_payload (encode_udp_payload (codes "a.b") 53 (1 ∷ 2 ∷ [])) blank ≡ record {
      filled = true;
      datagram = record { host = codes "a.b"; port = 53; payload = 1 ∷ 2 ∷ [] };
    }
decode-encode_udp_payload_example =
    decode-encode_udp_payload (codes "a.b") 53 (1 ∷ 2 ∷ []) blank (omega arith) (omega arith)
      (omega arith)
