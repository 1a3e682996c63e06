-- ===== src/Protocol/Origin/Laws.antt =====
-- What ToOriginForm returns on each form of target.
use rtcvpn.Common.{
  ℕ, suc, zero, ◌+◌, ◌≡◌, ◌≢◌, refl, arith, List, [], ◌∷◌, ◌++◌, none, some, length, drop, All,
  drop-skip, false, ◌==◌, ◌⊎◌, inl, inr, Bool-cases, Option-cases, drop-append, drop-drop,
}
use rtcvpn.Protocol.Origin.{slash, http, https, starts_with, find_char, path_from, to_origin_form}

-- A string that begins with a slash.
abbrev pub IsAbsolutePath : List ℕ → Type 0
IsAbsolutePath s = (rest : List ℕ) × (s ≡ slash ∷ rest)

-- The first slash of a text without one before it is found right behind it.
pub find_char-append :
    (host rest : List ℕ)
    → All (λ c. c ≢ slash) host
    → find_char slash (host ++ slash ∷ rest) ≡ some (length host)
unfolding find_char
find_char-append [] rest h = refl
find_char-append (x ∷ xs) rest h = ground (arith, find_char-append xs rest h.1)

find_char-none : (host : List ℕ) → All (λ c. c ≢ slash) host → find_char slash host ≡ none
unfolding find_char
find_char-none [] h = refl
find_char-none (x ∷ xs) h = ground (arith, find_char-none xs h.1)

find_char-drop : (s : List ℕ) (i : ℕ) → find_char slash s ≡ some i → IsAbsolutePath (drop i s)
unfolding find_char
find_char-drop [] i e = cc
find_char-drop (x ∷ xs) zero e = (xs, ground arith)
find_char-drop (x ∷ xs) (suc i) e = find_char-drop xs i (ground arith)

path_from-IsAbsolutePath : (s : List ℕ) (pos : ℕ) → IsAbsolutePath (path_from s pos)
unfolding path_from
path_from-IsAbsolutePath s pos = elim (Option-cases (find_char slash (drop pos s))) [
  | inl e ↦ ([], rw (e, path_from))
  | inr (i, e) ↦ rw (e, path_from, ← drop-drop pos i s) (find_char-drop (drop pos s) i e)
]

to_origin_form_absolute : (rest : List ℕ) → to_origin_form (slash ∷ rest) ≡ slash ∷ rest
unfolding to_origin_form
to_origin_form_absolute rest = refl

-- The result is an absolute path, or it is the target itself, unless that is empty or has one of the two schemes.
pub to_origin_form_cases :
    (target : List ℕ)
    → IsAbsolutePath (to_origin_form target)
      ⊎ ((to_origin_form target ≡ target)
          × (starts_with http target ≡ false)
          × (starts_with https target ≡ false))
unfolding to_origin_form
to_origin_form_cases [] = inl ([], refl)
to_origin_form_cases (c ∷ cs) = elim (Bool-cases (c == slash)) [
  | inl e ↦ inl (cs, ground arith)
  | inr e ↦ elim (Bool-cases (starts_with http (c ∷ cs))) [
    | inl f ↦ inl (rw (e, f) (path_from-IsAbsolutePath (c ∷ cs) (length http)))
    | inr f ↦ elim (Bool-cases (starts_with https (c ∷ cs))) [
      | inl g ↦ inl (rw (e, f, g) (path_from-IsAbsolutePath (c ∷ cs) (length https)))
      | inr g ↦ inr (rw (e, f, g), f, g)
    ]
  ]
]

-- A second pass changes nothing.
pub to_origin_form_idempotent :
    (target : List ℕ) → to_origin_form (to_origin_form target) ≡ to_origin_form target
to_origin_form_idempotent target = elim (to_origin_form_cases target) [
  | inl (rest, e) ↦ rw e (to_origin_form_absolute rest)
  | inr (e, _, _) ↦ rw e e
]

path_from-append :
    (scheme host path : List ℕ)
    → All (λ c. c ≢ slash) host
    → path_from (scheme ++ (host ++ slash ∷ path)) (length scheme) ≡ slash ∷ path
unfolding path_from
path_from-append scheme host path h = rw (
  drop-append scheme (host ++ slash ∷ path),
  find_char-append host path h,
  path_from,
  drop-skip scheme (host ++ slash ∷ path) (length scheme + length host) (length host) refl,
  drop-append host (slash ∷ path),
)

-- Of a URL with either scheme, an authority without a slash, and a path, the origin form is the
-- path with its leading slash.
pub to_origin_form_url :
    (host path : List ℕ)
    → All (λ c. c ≢ slash) host
    → (to_origin_form (http ++ (host ++ slash ∷ path)) ≡ slash ∷ path)
      × (to_origin_form (https ++ (host ++ slash ∷ path)) ≡ slash ∷ path)
unfolding to_origin_form starts_with
to_origin_form_url host path h =
    (path_from-append http host path h, path_from-append https host path h)

path_from_bare :
    (scheme host : List ℕ)
    → All (λ c. c ≢ slash) host
    → path_from (scheme ++ host) (length scheme) ≡ slash ∷ []
unfolding path_from
path_from_bare scheme host h = rw (drop-append scheme host, find_char-none host h, path_from)

-- Of a URL with an authority and no path, the root path is left.
pub to_origin_form_bare_url :
    (host : List ℕ)
    → All (λ c. c ≢ slash) host
    → (to_origin_form (http ++ host) ≡ slash ∷ []) × (to_origin_form (https ++ host) ≡ slash ∷ [])
unfolding to_origin_form starts_with
to_origin_form_bare_url host h = (path_from_bare http host h, path_from_bare https host h)
