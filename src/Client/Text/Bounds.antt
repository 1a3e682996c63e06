-- ===== src/Client/Text/Bounds.antt =====
-- The length of a dotted address.
use rtcvpn.Common.{ℕ, ◌<◌, ◌≤◌, List, ◌∷◌, ◌++◌, length, length-append, arith}
use rtcvpn.Client.Text.{decimal, dotted}

length-decimal : (b : ℕ) → length (decimal b) ≤ 3
unfolding decimal
length-decimal b = ground arith

length_joined :
    (x y z w : List ℕ)
    → length x ≤ 3
    → length y ≤ 3
    → length z ≤ 3
    → length w ≤ 3
    → length (x ++ (b'.' ∷ y ++ (b'.' ∷ z ++ (b'.' ∷ w)))) < 256
length_joined x y z w hx hy hz hw = omega (
  arith,
  length-append x (b'.' ∷ y ++ (b'.' ∷ z ++ (b'.' ∷ w))),
  length-append y (b'.' ∷ z ++ (b'.' ∷ w)),
  length-append z (b'.' ∷ w),
)

-- The dotted form of an address is short enough for a one-byte length.
pub length-dotted : (a b c d : ℕ) → length (dotted a b c d) < 256
unfolding dotted
length-dotted a b c d =
    length_joined (decimal a) (decimal b) (decimal c) (decimal d) (length-decimal a)
      (length-decimal b) (length-decimal c) (length-decimal d)
