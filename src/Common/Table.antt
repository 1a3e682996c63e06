-- ===== src/Common/Table.antt =====
-- A std::unordered_map from 32-bit keys: find, operator[] = and erase.
use Prim.Native.Nat.{ℕ}
use mathlib.Core.Path.{◌≡◌, refl}
use mathlib.Core.Bool.{Bool, true, false, ◌||◌}
use mathlib.Core.List.{List, [], ◌∷◌}
use mathlib.Core.Option.{Option, none, some}
use native.Mathlib.Omega.{arith}
use rtcvpn.Common.Tests.{◌==◌, if◌then◌else◌}

module _ {ℓ} {A : Type ℓ} where
  abbrev pub lookup : ℕ → List (ℕ × A) → Option A
  lookup k [] = none
  lookup k ((j, a) ∷ rest) = if j == k then some a else lookup k rest

  abbrev pub put : ℕ → A → List (ℕ × A) → List (ℕ × A)
  put k a [] = (k, a) ∷ []
  put k a ((j, b) ∷ rest) =
      let later = put k a rest in if j == k then (k, a) ∷ rest else (j, b) ∷ later

  abbrev pub remove : ℕ → List (ℕ × A) → List (ℕ × A)
  remove k [] = []
  remove k ((j, a) ∷ rest) = let later = remove k rest in if j == k then later else (j, a) ∷ later

  abbrev pub values : List (ℕ × A) → List A
  values [] = []
  values ((_, a) ∷ rest) = a ∷ values rest

  pub lookup-put :
      (k j : ℕ) (a : A) (t : List (ℕ × A))
      → lookup j (put k a t) ≡ (if k == j then some a else lookup j t)
  lookup-put k j a [] = refl
  lookup-put k j a ((i, b) ∷ t) = ground (arith, lookup-put k j a t)

  pub lookup-remove :
      (k j : ℕ) (t : List (ℕ × A)) → lookup j (remove k t) ≡ (if k == j then none else lookup j t)
  lookup-remove k j [] = ground arith
  lookup-remove k j ((i, b) ∷ t) = ground (arith, lookup-remove k j t)

abbrev pub is_some {ℓ} : {A : Type ℓ} → Option A → Bool
is_some none = false
is_some (some _) = true

-- Whether a number is in a list.
abbrev pub elem : ℕ → List ℕ → Bool
elem n [] = false
elem n (m ∷ ms) = m == n || elem n ms
