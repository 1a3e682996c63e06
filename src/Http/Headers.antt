-- ===== src/Http/Headers.antt =====
-- Message::iequals and the lookups get_header, has_header and get_headers.
use mathlib.Core.List.{map}
use rtcvpn.Common.{ℕ, suc, ◌≡◌, refl, ap, List, [], ◌∷◌, Bool, true, false, not, length, arith}
use rtcvpn.Http.{
  Header, to_lower, same_folded, iequals, get_header_in, has_header_in, get_headers_in,
}

same_folded_sound :
    (a b : List ℕ) → length a ≡ length b → same_folded a b ≡ true → map to_lower a ≡ map to_lower b
unfolding same_folded
same_folded_sound [] [] l e = refl
same_folded_sound [] (b ∷ bs) l e = absurd (omega arith)
same_folded_sound (a ∷ xs) [] l e = absurd (omega arith)
same_folded_sound (a ∷ xs) (b ∷ ys) l e = ground (arith, same_folded_sound xs ys)

same_folded_complete :
    (a b : List ℕ)
    → map to_lower a ≡ map to_lower b
    → (length a ≡ length b) × (same_folded a b ≡ true)
unfolding same_folded
same_folded_complete [] [] e = (refl, refl)
same_folded_complete [] (b ∷ bs) e = cc
same_folded_complete (a ∷ xs) [] e = cc
same_folded_complete (a ∷ xs) (b ∷ ys) e =
    let head : to_lower a ≡ to_lower b = cc in
    let tail : map to_lower xs ≡ map to_lower ys = cc in
    let (l, s) = same_folded_complete xs ys tail in (ap suc l, ground arith)

-- Two names are equal for iequals exactly when they are the same text in lower case.
pub iequals_iff :
    (a b : List ℕ)
    → (iequals a b ≡ true → map to_lower a ≡ map to_lower b)
      × (map to_lower a ≡ map to_lower b → iequals a b ≡ true)
unfolding iequals
iequals_iff a b = (
  λ e. same_folded_sound a b (ground arith) (ground arith),
  λ e. ground (arith, same_folded_complete a b e),
)

abbrev pub first_or_empty : List (List ℕ) → List ℕ
first_or_empty [] = []
first_or_empty (v ∷ vs) = v

abbrev pub is_empty : List (List ℕ) → Bool
is_empty [] = true
is_empty (_ ∷ _) = false

-- get_header gives the first value of get_headers, or the empty text where there is none, and
-- has_header says whether there is one.
pub get_header-first :
    (hs : List Header) (name : List ℕ)
    → (get_header_in hs name ≡ first_or_empty (get_headers_in hs name))
      × (has_header_in hs name ≡ not (is_empty (get_headers_in hs name)))
unfolding get_header_in has_header_in get_headers_in
get_header-first [] name = (refl, refl)
get_header-first (h ∷ hs) name = ground (arith, get_header-first hs name)
