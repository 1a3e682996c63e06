-- ===== src/Http.antt =====
-- Src/common/include/http_parse.h: HttpParser::Message. A std::string is the list of its bytes.
pub mod Digits
pub mod Serialize
pub mod Parser
pub mod Fragments
pub mod Headers
pub mod Forwarding
pub mod Streaming
pub mod Chunks
mod Tests
use rtcvpn.Common.{
  ℕ, zero, suc, ◌+◌, ◌-◌, ◌*◌, ◌/◌, ◌%◌, List, [], ◌∷◌, ◌++◌, Bool, true, false, not, ◌&&◌, ◌||◌,
  Option, none, some, ltb, leb, ◌==◌, if◌then◌else◌, length, codes,
}

pub record Header : Type 0 where
  pub name : List ℕ
  pub value : List ℕ

pub data ParserType : Type 0 where
  unknown request response : ParserType

pub record Message : Type 0 where
  pub type : ParserType
  pub version : ℕ
  pub method : List ℕ
  pub target : List ℕ
  pub path : List ℕ
  pub query : List ℕ
  pub status_code : ℕ
  pub reason : List ℕ
  pub headers : List Header
  pub trailers : List Header
  pub body : List ℕ
  pub keep_alive : Bool
  pub connection_close : Bool
  pub connection_keep_alive : Bool
  pub chunked : Bool
  pub upgrade : Bool
  pub connect : Bool
  pub has_body : Bool
  pub content_length : Option ℕ

-- std::tolower on an unsigned char, in the "C" locale.
unfoldable pub to_lower : ℕ → ℕ
to_lower c = if leb b'A' c && leb c b'Z' then c + 32 else c

-- The loop of Message::iequals over the positions of two strings of one length.
same_folded : List ℕ → List ℕ → Bool
unfolding to_lower
same_folded [] [] = true
same_folded (a ∷ xs) (b ∷ ys) = to_lower a == to_lower b && same_folded xs ys
same_folded _ _ = true

unfoldable pub iequals : List ℕ → List ℕ → Bool
unfolding same_folded
iequals a b = if not (length a == length b) then false else same_folded a b

-- The loops over the headers of get_header, has_header and get_headers.
pub get_header_in : List Header → List ℕ → List ℕ
get_header_in [] name = []
get_header_in (h ∷ hs) name = if iequals h.name name then h.value else get_header_in hs name

pub has_header_in : List Header → List ℕ → Bool
has_header_in [] name = false
has_header_in (h ∷ hs) name = iequals h.name name || has_header_in hs name

pub get_headers_in : List Header → List ℕ → List (List ℕ)
get_headers_in [] name = []
get_headers_in (h ∷ hs) name =
    let rest = get_headers_in hs name in if iequals h.name name then h.value ∷ rest else rest

abbrev pub get_header : Message → List ℕ → List ℕ
get_header m name = get_header_in m.headers name

abbrev pub has_header : Message → List ℕ → Bool
has_header m name = has_header_in m.headers name

abbrev pub get_headers : Message → List ℕ → List (List ℕ)
get_headers m name = get_headers_in m.headers name
