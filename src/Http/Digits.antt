-- ===== src/Http/Digits.antt =====
-- std::to_string of an unsigned number, and "%zx" of snprintf.
use rtcvpn.Common.{
  ℕ, zero, suc, ◌+◌, ◌-◌, ◌*◌, ◌/◌, ◌%◌, ◌<◌, ◌≤◌, ◌≡◌, List, [], ◌∷◌, ltb, if◌then◌else◌, arith,
  Bool-cases, inl, inr, ap, ◌∙◌,
}

abbrev pub digit : ℕ → ℕ
digit d = if ltb d 10 then b'0' + d else b'a' + (d - 10)

-- The digits are found from the last to the first; one round for each.
unfoldable pub digits_from : ℕ → ℕ → ℕ → List ℕ → List ℕ
digits_from zero base n acc = acc
digits_from (suc fuel) base n acc =
    let more = digits_from fuel base (n / base) (digit (n % base) ∷ acc) in
    if ltb n base then digit n ∷ acc else more

-- A number has fewer digits than n + 1, so this fuel is enough.
unfoldable pub to_string : ℕ → List ℕ
unfolding digits_from
to_string n = digits_from (suc n) 10 n []

unfoldable pub to_hex : ℕ → List ℕ
unfolding digits_from
to_hex n = digits_from (suc n) 16 n []

abbrev pub digit_value : ℕ → ℕ
digit_value c = if ltb c b'a' then c - b'0' else c - b'a' + 10

-- The number that digits stand for, behind a number read so far.
unfoldable pub value_from : ℕ → ℕ → List ℕ → ℕ
value_from base v [] = v
value_from base v (c ∷ cs) = value_from base (v * base + digit_value c) cs

digit_value-digit : (d : ℕ) → d < 16 → digit_value (digit d) ≡ d
digit_value-digit d h = ground arith

twice-le-mul : (q base : ℕ) → 1 < base → q + q ≤ q * base
twice-le-mul q base h = grind arith

quotient_falls : (n base fuel : ℕ) → 1 < base → base ≤ n → n < suc fuel → n / base < fuel
quotient_falls n base fuel lo le h = omega (arith, twice-le-mul (n / base) base lo)

value_from-digits_from :
    (base fuel n : ℕ) (acc : List ℕ)
    → 1 < base
    → base ≤ 16
    → n < fuel
    → value_from base 0 (digits_from fuel base n acc) ≡ value_from base n acc
unfolding digits_from value_from
value_from-digits_from base zero n acc lo hi h = absurd (omega arith)
value_from-digits_from base (suc fuel) n acc lo hi h = elim (Bool-cases (ltb n base)) [
  | inl last ↦
      let d = digit_value-digit n (ground arith) in
      let e : 0 * base + digit_value (digit n) ≡ n = omega (arith, d) in
      rw last (ap (λ v. value_from base v acc) e)
  | inr more ↦
      let d = digit_value-digit (n % base) (grind arith) in
      let e : n / base * base + digit_value (digit (n % base)) ≡ n = omega (arith, d) in
      rw more (
        value_from-digits_from base fuel (n / base) (digit (n % base) ∷ acc) lo hi
          (quotient_falls n base fuel lo (ground arith) h)
        ∙ ap (λ v. value_from base v acc) e)
]

-- to_string and "%zx" write the digits of their number in base 10 and base 16.
pub value-to_string :
    (n : ℕ) → (value_from 10 0 (to_string n) ≡ n) × (value_from 16 0 (to_hex n) ≡ n)
unfolding to_string to_hex value_from
value-to_string n = (
  value_from-digits_from 10 (suc n) n [] (omega arith) (omega arith) (omega arith),
  value_from-digits_from 16 (suc n) n [] (omega arith) (omega arith) (omega arith),
)
