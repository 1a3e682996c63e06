-- ===== src/Client/Text.antt =====
-- The text functions of the C++ library that Socks5Session calls on bytes: "%d.%d.%d.%d" on four
-- bytes, and std::stoi in base 10 on a 32-bit int.
pub mod Bounds
use rtcvpn.Common.{
  ℕ, ◌+◌, ◌-◌, ◌*◌, ◌/◌, ◌%◌, ◌^◌, List, [], ◌∷◌, ◌++◌, Bool, ◌&&◌, ◌||◌, Option, none, some, ltb,
  leb, ◌==◌, if◌then◌else◌,
}

-- "%d" of a byte.
unfoldable pub decimal : ℕ → List ℕ
decimal b =
    if ltb b 10
    then (b'0' + b) ∷ []
    else if ltb b 100
    then (b'0' + b / 10) ∷ (b'0' + b % 10) ∷ []
    else (b'0' + b / 100) ∷ (b'0' + b / 10 % 10) ∷ (b'0' + b % 10) ∷ []

unfoldable pub dotted : ℕ → ℕ → ℕ → ℕ → List ℕ
unfolding decimal
dotted a b c d = decimal a ++ (b'.' ∷ decimal b ++ (b'.' ∷ decimal c ++ (b'.' ∷ decimal d)))

abbrev is_digit : ℕ → Bool
is_digit c = leb b'0' c && leb c b'9'

abbrev is_space : ℕ → Bool
is_space c = c == 32 || (leb 9 c && leb c 13)

-- The digits at the front, behind a value read so far.
digits_value : ℕ → List ℕ → ℕ
digits_value v [] = v
digits_value v (c ∷ cs) =
    let more = digits_value (v * 10 + (c - b'0')) cs in if is_digit c then more else v

-- `none` is an exception: no digits, or out of the range of int. The result is given as it is
-- stored in a uint16_t.
positive : List ℕ → Option ℕ
unfolding digits_value
positive [] = none
positive (c ∷ cs) =
    let v = digits_value 0 (c ∷ cs) in
    if is_digit c then (if ltb v (2 ^ 31) then some (v % 2 ^ 16) else none) else none

negative : List ℕ → Option ℕ
unfolding digits_value
negative [] = none
negative (c ∷ cs) =
    let v = digits_value 0 (c ∷ cs) in
    if is_digit c then (if leb v (2 ^ 31) then some ((2 ^ 31 - v) % 2 ^ 16) else none) else none

signed : List ℕ → Option ℕ
unfolding positive negative
signed [] = none
signed (c ∷ cs) =
    if c == b'-' then negative cs else if c == b'+' then positive cs else positive (c ∷ cs)

-- `static_cast<uint16_t>(std::stoi(text))`.
unfoldable pub stoi16 : List ℕ → Option ℕ
unfolding signed
stoi16 [] = none
stoi16 (c ∷ cs) = let skipped = stoi16 cs in if is_space c then skipped else signed (c ∷ cs)
