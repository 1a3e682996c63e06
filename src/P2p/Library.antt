-- ===== src/P2p/Library.antt =====
-- What Src/common/include/p2p_session_controller.h, Src/common/src/signaling.cpp and
-- Src/common/src/p2p_client.cpp use of nlohmann::json, objects with text fields, and what
-- libdatachannel answers while a handler runs.
use rtcvpn.Common.{
  ℕ, List, [], ◌∷◌, Bool, true, false, Option, none, some, if◌then◌else◌, same_text,
}

-- A string, or any other value.
pub data Value : Type 0 where
  text : List ℕ → Value
  other : Value

-- The fields of an object, each key once; a value that is no object has none.
abbrev pub Json : Type 0
Json = List (List ℕ × Value)

-- find, and operator[] of a field that is there.
abbrev pub get : List ℕ → Json → Option Value
get key [] = none
get key ((k, v) ∷ rest) = if same_text k key then some v else get key rest

-- `j[key] = value`.
abbrev pub set : List ℕ → Value → Json → Json
set key value [] = (key, value) ∷ []
set key value ((k, v) ∷ rest) =
    let kept = set key value rest in if same_text k key then (k, value) ∷ rest else (k, v) ∷ kept

-- value(key, default), which throws for a field that is no string.
abbrev pub value_or : List ℕ → List ℕ → Json → Option (List ℕ)
value_or key default j = elim (get key j) [
  | none ↦ some default
  | some (text t) ↦ some t
  | some other ↦ none
]

-- `msg[key] == expected` of a field, and whether it is there.
abbrev pub is_text : List ℕ → Option Value → Bool
is_text expected (some (text t)) = same_text t expected
is_text expected _ = false

-- isOpen of the WebSocket and of the data channel, and whether making a peer connection or a data
-- channel throws.
pub record Answers : Type 0 where
  pub ws_is_open : Bool
  pub dc_is_open : Bool
  pub pc_throws : Bool
  pub dc_throws : Bool

-- Everything is open and nothing throws.
abbrev pub all_well : Answers
all_well = record { ws_is_open = true; dc_is_open = true; pc_throws = false; dc_throws = false }
