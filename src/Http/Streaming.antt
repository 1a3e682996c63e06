-- ===== src/Http/Streaming.antt =====
-- Message::serialize against serialize_headers_only.
use rtcvpn.Common.{
  ℕ, ◌≡◌, ◌∙◌, sym, ap, List, [], ◌++◌, if◌then◌else◌, append_assoc, some, length, codes,
}
use rtcvpn.Http.Digits.{to_string}
use rtcvpn.Http.{Message}
use rtcvpn.Http.Serialize.{
  serialize, serialize_headers_only, chunked_body, start_line, header_lines, crlf, framed,
}

regroup : (a b c d e : List ℕ) → a ++ (b ++ (c ++ (d ++ e))) ≡ (a ++ (b ++ (c ++ d))) ++ e
regroup a b c d e =
    ap (λ l. a ++ (b ++ l)) (sym (append_assoc c d e))
    ∙ ap (λ l. a ++ l) (sym (append_assoc b (c ++ d) e))
    ∙ sym (append_assoc a (b ++ (c ++ d)) e)

-- A whole message is written as its head, with the framing that the message says, followed by its
-- body, as one chunk and the last one with the trailers if the message is chunked, and as it is
-- otherwise.
pub serialize-serialize_headers_only :
    (m : Message)
    → serialize m
      ≡ serialize_headers_only m m.chunked (some (length m.body))
        ++ (if m.chunked then chunked_body m else m.body)
unfolding serialize serialize_headers_only
serialize-serialize_headers_only m =
    regroup (start_line m.type m) (header_lines m.headers)
      (if framed m
        then (if m.chunked
            then codes "Transfer-Encoding: chunked" ++ crlf
            else codes "Content-Length: " ++ (to_string (length m.body) ++ crlf))
        else [])
      crlf (if m.chunked then chunked_body m else m.body)
