-- ===== src/Http/Forwarding.antt =====
-- prepare_for_forwarding of Src/common/include/http_parse.h.
use rtcvpn.Common.{ℕ, List, [], ◌∷◌, ◌++◌, Bool, false, ◌||◌, ◌==◌, if◌then◌else◌, codes}
use rtcvpn.Http.{Header, ParserType, request, Message, iequals}

-- The loop that cuts a value at its commas; nothing comes behind a comma at the end.
abbrev parts_from : List ℕ → List ℕ → List (List ℕ)
parts_from part [] = part ∷ []
parts_from part (c ∷ []) = if c == b',' then part ∷ [] else (part ++ c ∷ []) ∷ []
parts_from part (c ∷ d ∷ rest) =
    let next = parts_from [] (d ∷ rest) in
    let longer = parts_from (part ++ c ∷ []) (d ∷ rest) in if c == b',' then part ∷ next else longer

abbrev pub parts_of : List ℕ → List (List ℕ)
parts_of [] = []
parts_of (c ∷ cs) = parts_from [] (c ∷ cs)

-- What the Connection headers name.
abbrev pub connection_names : List Header → List (List ℕ)
connection_names [] = []
connection_names (h ∷ hs) =
    let rest = connection_names hs in
    if iequals h.name (codes "Connection") then parts_of h.value ++ rest else rest

abbrev pub hop_by_hop : List Header → List (List ℕ)
hop_by_hop hs =
    codes "Proxy-Authenticate"
    ∷ codes "Proxy-Authorization"
    ∷ codes "TE"
    ∷ codes "Trailer"
    ∷ codes "Proxy-Connection"
    ∷ connection_names hs

abbrev pub framing_names : List (List ℕ)
framing_names = codes "Content-Length" ∷ codes "Transfer-Encoding" ∷ []

abbrev pub is_named : List ℕ → List (List ℕ) → Bool
is_named name [] = false
is_named name (n ∷ ns) = iequals name n || is_named name ns

-- erase(remove_if(…)).
abbrev pub remove_named : List (List ℕ) → List Header → List Header
remove_named names [] = []
remove_named names (h ∷ hs) =
    let rest = remove_named names hs in if is_named h.name names then rest else h ∷ rest

abbrev pub own_headers : ParserType → List ℕ → List ℕ → List Header
own_headers request via ip =
    record { name = codes "Via"; value = via }
    ∷ record { name = codes "X-Forwarded-For"; value = ip }
    ∷ []
own_headers _ via ip = record { name = codes "Via"; value = via } ∷ []

unfoldable pub prepare_for_forwarding : Message → List ℕ → List ℕ → Message
prepare_for_forwarding m via ip = record m {
  headers =
      remove_named framing_names (remove_named (hop_by_hop m.headers) m.headers)
      ++ own_headers m.type via ip;
}
