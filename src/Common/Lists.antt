-- ===== src/Common/Lists.antt =====
-- Lists measured and indexed by native numbers, under the library's names, and predicates on them.
use Prim.Native.Nat.{ℕ, zero, suc, ◌+◌, ◌-◌, ◌<◌, min}
use mathlib.Core.Path.{◌≡◌, refl, ap}
use mathlib.Core.List.{List, [], ◌∷◌, ◌++◌}
use mathlib.Core.Option.{Option, none, some}
use mathlib.Core.Bool.{Bool, true, false, ◌&&◌}
use rtcvpn.Common.Tests.{◌==◌, eq→==}
use native.Mathlib.Omega.{arith}
use native.Mathlib.Nat.{suc-add, zero-add}

module _ {ℓ} {A : Type ℓ} where
  abbrev pub length : List A → ℕ
  length [] = 0
  length (x ∷ xs) = suc (length xs)

  abbrev pub get_elem? : List A → ℕ → Option A
  get_elem? [] i = none
  get_elem? (x ∷ xs) zero = some x
  get_elem? (x ∷ xs) (suc i) = get_elem? xs i

  abbrev pub get_or : List A → ℕ → A → A
  get_or [] i d = d
  get_or (x ∷ xs) zero d = x
  get_or (x ∷ xs) (suc i) d = get_or xs i d

  abbrev pub take : ℕ → List A → List A
  take zero xs = []
  take (suc n) [] = []
  take (suc n) (x ∷ xs) = x ∷ take n xs

  abbrev pub drop : ℕ → List A → List A
  drop zero xs = xs
  drop (suc n) [] = []
  drop (suc n) (x ∷ xs) = drop n xs

  abbrev pub replicate : ℕ → A → List A
  replicate zero a = []
  replicate (suc n) a = a ∷ replicate n a

  pub length-append : (xs ys : List A) → length (xs ++ ys) ≡ length xs + length ys
  length-append [] ys = omega arith
  length-append (x ∷ xs) ys = omega (arith, length-append xs ys)

  pub length-drop : (n : ℕ) (xs : List A) → length (drop n xs) ≡ length xs - n
  length-drop zero xs = omega arith
  length-drop (suc n) [] = omega arith
  length-drop (suc n) (x ∷ xs) = omega (arith, length-drop n xs)

  pub length-take : (n : ℕ) (xs : List A) → length (take n xs) ≡ min n (length xs)
  length-take zero xs = omega arith
  length-take (suc n) [] = omega arith
  length-take (suc n) (x ∷ xs) = omega (arith, length-take n xs)

  -- A prefix of exactly `length xs` elements, and what follows it.
  pub take-append : (xs ys : List A) → take (length xs) (xs ++ ys) ≡ xs
  take-append [] ys = refl
  take-append (x ∷ xs) ys = ap (◌∷◌ x) (take-append xs ys)

  pub drop-append : (xs ys : List A) → drop (length xs) (xs ++ ys) ≡ ys
  drop-append [] ys = refl
  drop-append (x ∷ xs) ys = drop-append xs ys

  pub take-length : (xs : List A) → take (length xs) xs ≡ xs
  take-length [] = refl
  take-length (x ∷ xs) = ap (◌∷◌ x) (take-length xs)

  pub get_or-append :
      (xs ys : List A) (i : ℕ) (d : A) → get_or (xs ++ ys) (length xs + i) d ≡ get_or ys i d
  get_or-append [] ys i d = rw zero-add
  get_or-append (x ∷ xs) ys i d = rw suc-add (get_or-append xs ys i d)

  -- An index that is written as a sum reaches past a first element, or past a prefix.
  pub get_or-cons :
      (x : A) (xs : List A) (j i : ℕ) (d : A) → j ≡ suc i → get_or (x ∷ xs) j d ≡ get_or xs i d
  get_or-cons x xs j i d e = rw e

  pub get_or-skip :
      (xs ys : List A) (j i : ℕ) (d : A) → j ≡ length xs + i → get_or (xs ++ ys) j d ≡ get_or ys i d
  get_or-skip xs ys j i d e = rw e (get_or-append xs ys i d)

  pub get_elem?-skip :
      (xs ys : List A) (j i : ℕ) → j ≡ length xs + i → get_elem? (xs ++ ys) j ≡ get_elem? ys i
  get_elem?-skip [] ys j i e = rw (e, zero-add)
  get_elem?-skip (x ∷ xs) ys j i e = rw (e, suc-add) (get_elem?-skip xs ys (length xs + i) i refl)

  pub get_elem?-cons :
      (x : A) (xs : List A) (j i : ℕ) → j ≡ suc i → get_elem? (x ∷ xs) j ≡ get_elem? xs i
  get_elem?-cons x xs j i e = rw e

  pub drop-skip : (xs ys : List A) (j i : ℕ) → j ≡ length xs + i → drop j (xs ++ ys) ≡ drop i ys
  drop-skip [] ys j i e = rw (e, zero-add)
  drop-skip (x ∷ xs) ys j i e = rw (e, suc-add) (drop-skip xs ys (length xs + i) i refl)

  pub drop-cons : (x : A) (xs : List A) (j i : ℕ) → j ≡ suc i → drop j (x ∷ xs) ≡ drop i xs
  drop-cons x xs j i e = rw e

  pub get_or-take :
      (k : ℕ) (xs : List A) (j : ℕ) (d : A) → j < k → get_or (take k xs) j d ≡ get_or xs j d
  get_or-take zero xs j d h = absurd (omega arith)
  get_or-take (suc k) [] j d h = refl
  get_or-take (suc k) (x ∷ xs) zero d h = refl
  get_or-take (suc k) (x ∷ xs) (suc j) d h = get_or-take k xs j d (omega arith)

  pub drop-nil : (n : ℕ) → drop n [] ≡ []
  drop-nil zero = refl
  drop-nil (suc n) = refl

  pub drop-drop : (m n : ℕ) (xs : List A) → drop n (drop m xs) ≡ drop (m + n) xs
  drop-drop zero n xs = rw zero-add
  drop-drop (suc m) n [] = rw suc-add (drop-nil n)
  drop-drop (suc m) n (x ∷ xs) = rw suc-add (drop-drop m n xs)

  pub take-append-drop : (n : ℕ) (xs : List A) → take n xs ++ drop n xs ≡ xs
  take-append-drop zero xs = refl
  take-append-drop (suc n) [] = refl
  take-append-drop (suc n) (x ∷ xs) = rw (take-append-drop n xs)

module _ {ℓ κ} {A : Type ℓ} (P : A → Type κ) where
  abbrev pub All : List A → Type κ
  All [] = Unit
  All (x ∷ xs) = P x × All xs

  pub All-append : (xs ys : List A) → All xs → All ys → All (xs ++ ys)
  All-append [] ys hx hy = hy
  All-append (x ∷ xs) ys hx hy = (hx.0, All-append xs ys hx.1 hy)

-- Equality of two texts.
abbrev pub same_text : List ℕ → List ℕ → Bool
same_text [] [] = true
same_text [] (_ ∷ _) = false
same_text (_ ∷ _) [] = false
same_text (a ∷ xs) (b ∷ ys) = a == b && same_text xs ys

pub same_text_refl : (a : List ℕ) → same_text a a ≡ true
same_text_refl [] = refl
same_text_refl (a ∷ xs) = rw (eq→== a a refl) (same_text_refl xs)

pub same_text→eq : (a b : List ℕ) → same_text a b ≡ true → a ≡ b
same_text→eq [] [] h = refl
same_text→eq [] (_ ∷ _) h = cc
same_text→eq (_ ∷ _) [] h = cc
same_text→eq (a ∷ xs) (b ∷ ys) h = ground (arith, same_text→eq xs ys)
