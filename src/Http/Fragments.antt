-- ===== src/Http/Fragments.antt =====
-- The header callbacks of HttpParser, to which llhttp hands names and values in pieces of any
-- size, and feed.
use mathlib.Core.List.{map, flatten}
use rtcvpn.Common.{
  ℕ, ◌≡◌, refl, ◌∙◌, List, [], ◌∷◌, ◌++◌, Bool, true, false, arith, append_assoc, append-nil,
}
use rtcvpn.Http.{Header, ParserType, unknown, request, response, Message}
use rtcvpn.Http.Parser.{
  Parser, Event, header_field, header_value, headers_done, message_begin, Flags, handle, handle_all,
  describe, finish_headers, feed, Outcome,
}

-- What of the parser the header callbacks work on.
record Reading (p : Parser) (hs : List Header) (n v : List ℕ) (b : Bool) : Type 0 where
  headers : p.message.headers ≡ hs
  field : p.cur_header_field ≡ n
  value : p.cur_header_value ≡ v
  in_value : p.in_header_value ≡ b

module _ {p : Parser} {hs : List Header} {n v : List ℕ} where
  field_first :
      (at : List ℕ)
      → Reading p hs n v true
      → Reading
          (handle (header_field at) p).0
          (hs ++ record { name = n; value = v } ∷ [])
          at
          []
          false
  unfolding handle
  field_first at r = ground arith

  field_more :
      (at : List ℕ)
      → Reading p hs n v false
      → Reading (handle (header_field at) p).0 hs (n ++ at) v false
  unfolding handle
  field_more at r = ground arith

  value_part :
      (at : List ℕ) {b : Bool}
      → Reading p hs n v b
      → Reading (handle (header_value at) p).0 hs n (v ++ at) true
  unfolding handle
  value_part at r = ground arith

-- A header whose name and value come in pieces: at least one of each.
pub record Pieces : Type 0 where
  pub name_first : List ℕ
  pub name_rest : List (List ℕ)
  pub value_first : List ℕ
  pub value_rest : List (List ℕ)

abbrev pub whole : Pieces → Header
whole h = record {
  name = h.name_first ++ flatten h.name_rest;
  value = h.value_first ++ flatten h.value_rest;
}

abbrev pub events_of : List Pieces → List Event
events_of [] = []
events_of (h ∷ hs) =
    header_field h.name_first ∷ map header_field h.name_rest
    ++ (header_value h.value_first ∷ map header_value h.value_rest ++ events_of hs)

abbrev pub after : List Event → Parser → Parser
after es p = (handle_all es p).0

after-append : (xs ys : List Event) (p : Parser) → after (xs ++ ys) p ≡ after ys (after xs p)
unfolding handle_all
after-append [] ys p = refl
after-append (x ∷ xs) ys p = after-append xs ys (handle x p).0

fields_read :
    (ats : List (List ℕ)) (p : Parser) (hs : List Header) (n : List ℕ)
    → Reading p hs n [] false
    → Reading (after (map header_field ats) p) hs (n ++ flatten ats) [] false
unfolding handle_all flatten
fields_read [] p hs n r = rw (append-nil n) r
fields_read (at ∷ ats) p hs n r =
    rw (← append_assoc n at (flatten ats))
      (fields_read ats (handle (header_field at) p).0 hs (n ++ at) (field_more at r))

values_read :
    (ats : List (List ℕ)) (p : Parser) (hs : List Header) (n v : List ℕ)
    → Reading p hs n v true
    → Reading (after (map header_value ats) p) hs n (v ++ flatten ats) true
unfolding handle_all flatten
values_read [] p hs n v r = rw (append-nil v) r
values_read (at ∷ ats) p hs n v r =
    rw (← append_assoc v at (flatten ats))
      (values_read ats (handle (header_value at) p).0 hs n (v ++ at) (value_part at r))

-- The headers read so far: none is pending, or the last one still stands in the two buffers.
data Collected (p : Parser) (hs : List Header) : Type 0 where
  settled : Reading p hs [] [] false → Collected p hs
  pending :
      (before : List Header) (n v : List ℕ)
      → Reading p before n v true
      → hs ≡ before ++ record { name = n; value = v } ∷ []
      → Collected p hs

name_begun :
    (p : Parser) (hs : List Header) (at : List ℕ)
    → Collected p hs
    → Reading (handle (header_field at) p).0 hs at [] false
name_begun p hs at (settled r) = field_more at r
name_begun p hs at (pending before n v r e) = rw e (field_first at r)

header_read :
    (h : Pieces) (p : Parser) (hs : List Header)
    → Collected p hs
    → Collected
        (after
          (header_field h.name_first ∷ map header_field h.name_rest
            ++ header_value h.value_first ∷ map header_value h.value_rest)
          p)
        (hs ++ whole h ∷ [])
unfolding handle_all
header_read h p hs c =
    let begun = (handle (header_field h.name_first) p).0 in
    let named = fields_read h.name_rest begun hs h.name_first (name_begun p hs h.name_first c) in
    pending hs (whole h).name (whole h).value
      (rw
        (after-append (map header_field h.name_rest)
          (header_value h.value_first ∷ map header_value h.value_rest) begun)
        (values_read h.value_rest _ hs (whole h).name h.value_first
          (value_part h.value_first named)))
      refl

headers_read :
    (ps : List Pieces) (p : Parser) (hs : List Header)
    → Collected p hs
    → Collected (after (events_of ps) p) (hs ++ map whole ps)
unfolding handle_all
headers_read [] p hs c = rw (append-nil hs) c
headers_read (h ∷ ps) p hs c =
    let first =
      header_field h.name_first ∷ map header_field h.name_rest
      ++ header_value h.value_first ∷ map header_value h.value_rest in
    rw
      (
        ← append_assoc (header_field h.name_first ∷ map header_field h.name_rest)
            (header_value h.value_first ∷ map header_value h.value_rest) (events_of ps),
        after-append first (events_of ps) p,
        ← append_assoc hs (whole h ∷ []) (map whole ps),
      )
      (headers_read ps (after first p) (hs ++ whole h ∷ []) (header_read h p hs c))

headers-describe :
    (t : ParserType) (f : Flags) (p : Parser) (m : Message) → (describe t f p m).headers ≡ m.headers
unfolding describe
headers-describe unknown f p m = refl
headers-describe request f p m = refl
headers-describe response f p m = refl

headers-finish_headers :
    (f : Flags) (p : Parser) → (finish_headers f p).message.headers ≡ p.message.headers
unfolding finish_headers
headers-finish_headers f p = headers-describe p.type f p _

finished :
    (f : Flags) (p : Parser) (hs : List Header)
    → Collected p hs
    → (handle (headers_done f) p).0.message.headers ≡ hs
unfolding handle
finished f p hs (settled r) = headers-finish_headers f _ ∙ ground arith
finished f p hs (pending before n v r e) = headers-finish_headers f _ ∙ ground arith

-- After the callbacks of one message head the headers of the message are its names and values put
-- together from their pieces, in order, whatever the sizes of the pieces and whatever the parser
-- read before.
pub headers_of_pieces :
    (ps : List Pieces) (f : Flags) (p : Parser)
    → (after (message_begin ∷ events_of ps ++ headers_done f ∷ []) p).message.headers ≡ map whole ps
unfolding handle_all
headers_of_pieces ps f p =
    let begun = (handle message_begin p).0 in
    rw (after-append (events_of ps) (headers_done f ∷ []) begun) (
      finished f (after (events_of ps) begun) (map whole ps) (
        headers_read ps begun [] (
          settled (
            unfold handle in
            record { headers = refl; field = refl; value = refl; in_value = refl }))))

-- After a call of feed in which llhttp reported an error, the next call changes nothing, calls
-- nothing and returns false.
pub feed_after_error :
    (events later : List Event) (outcome : Outcome) (code : ℕ) (input input' : List ℕ) (p : Parser)
    → let q = (feed events (Outcome.error code) input p).1 in
      feed later outcome input' q ≡ (false, q, [])
unfolding feed
feed_after_error events later outcome code input input' p = ground arith
