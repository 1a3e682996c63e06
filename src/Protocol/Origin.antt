-- ===== src/Protocol/Origin.antt =====
-- ToOriginForm. A std::string is the list of its bytes.
pub mod Laws
use rtcvpn.Common.{
  ℕ, zero, suc, ◌+◌, List, [], ◌∷◌, Bool, true, false, ◌&&◌, Option, none, some, ◌==◌,
  if◌then◌else◌, length, drop,
}

abbrev pub slash : ℕ
slash = b'/'

abbrev pub http : List ℕ
http = b'h' ∷ b't' ∷ b't' ∷ b'p' ∷ b':' ∷ slash ∷ slash ∷ []

abbrev pub https : List ℕ
https = b'h' ∷ b't' ∷ b't' ∷ b'p' ∷ b's' ∷ b':' ∷ slash ∷ slash ∷ []

-- `target.compare(0, prefix.size(), prefix) == 0`.
unfoldable pub starts_with : List ℕ → List ℕ → Bool
starts_with [] s = true
starts_with (c ∷ cs) [] = false
starts_with (c ∷ cs) (x ∷ xs) = c == x && starts_with cs xs

-- std::string::find(c), with `none` for npos.
unfoldable pub find_char : ℕ → List ℕ → Option ℕ
find_char c [] = none
find_char c (x ∷ xs) = elim (x == c) [
  | true ↦ some 0
  | false ↦ elim (find_char c xs) [ none ↦ none | some i ↦ some (suc i) ]
]

-- The last lines: `pos` is behind the scheme, then the place of the first slash from there on.
unfoldable pub path_from : List ℕ → ℕ → List ℕ
path_from target pos = elim (find_char slash (drop pos target)) [
  | none ↦ slash ∷ []
  | some i ↦ drop (pos + i) target
]

unfoldable pub to_origin_form : List ℕ → List ℕ
to_origin_form [] = slash ∷ []
to_origin_form (c ∷ cs) =
    if c == slash
    then c ∷ cs
    else if starts_with http (c ∷ cs)
    then path_from (c ∷ cs) (length http)
    else if starts_with https (c ∷ cs)
    then path_from (c ∷ cs) (length https)
    else c ∷ cs
