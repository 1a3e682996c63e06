-- ===== src/Http/Chunks.antt =====
-- The chunks that Socks5Session and HttpSession write, against the grammar of chunked bodies.
use Prim.Native.Nat.{ℕ, zero, suc}
use rtcvpn.Common.{
  ◌+◌, ◌/◌, ◌%◌, ◌<◌, ◌≡◌, ◌≢◌, refl, ap, ◌∙◌, arith, List, [], ◌∷◌, ◌++◌, Option, none, some, ltb,
  ◌==◌, if◌then◌else◌, ◌>>=◌, length, take, drop, All, append_assoc, take-append, drop-skip,
  Bool-cases, inl, inr,
}
use rtcvpn.Http.Digits.{digit, digits_from, to_hex, value_from, value-to_string}
use rtcvpn.Http.Serialize.{crlf, chunk, last_chunk}

-- The bytes before the first carriage return, and those behind it and the line feed.
abbrev pub size_line : List ℕ → List ℕ
size_line [] = []
size_line (c ∷ cs) = if c == 13 then [] else c ∷ size_line cs

abbrev pub behind_line : List ℕ → List ℕ
behind_line [] = []
behind_line (c ∷ cs) = if c == 13 then drop 1 cs else behind_line cs

-- The body that chunks carry, up to the chunk of size 0.
unfoldable pub dechunk : ℕ → List ℕ → Option (List ℕ)
dechunk zero bytes = none
dechunk (suc fuel) bytes =
    let size = value_from 16 0 (size_line bytes) in
    let body = behind_line bytes in
    let more = dechunk fuel (drop (size + 2) body) in
    if size == 0 then some [] else (more >>= λ rest. some (take size body ++ rest))

digits_from_printable :
    (base fuel n : ℕ) (acc : List ℕ)
    → All (λ c. c ≢ 13) acc
    → All (λ c. c ≢ 13) (digits_from fuel base n acc)
unfolding digits_from
digits_from_printable base zero n acc h = h
digits_from_printable base (suc fuel) n acc h = elim (Bool-cases (ltb n base)) [
  | inl e ↦ rw e (digit_printable n, h)
  | inr e ↦ rw e (
      digits_from_printable base fuel (n / base) (digit (n % base) ∷ acc)
        (digit_printable (n % base), h))
]
  where
    digit_printable : (d : ℕ) → digit d ≢ 13
    digit_printable d = ground arith

size_line-append :
    (line rest : List ℕ)
    → All (λ c. c ≢ 13) line
    → (size_line (line ++ (13 ∷ 10 ∷ rest)) ≡ line)
      × (behind_line (line ++ (13 ∷ 10 ∷ rest)) ≡ rest)
size_line-append [] rest h = (refl, refl)
size_line-append (c ∷ cs) rest h = ground (arith, size_line-append cs rest h.1)

to_hex_printable : (n : ℕ) → All (λ c. c ≢ 13) (to_hex n)
unfolding to_hex
to_hex_printable n = digits_from_printable 16 (suc n) n [] tt

-- One round of the reader, given its line and what stands behind that.
dechunk_round :
    (fuel : ℕ) (input bytes rest : List ℕ)
    → value_from 16 0 (size_line input) ≡ length bytes
    → behind_line input ≡ bytes ++ (13 ∷ 10 ∷ rest)
    → 0 < length bytes
    → dechunk (suc fuel) input ≡ (dechunk fuel rest >>= λ more. some (bytes ++ more))
unfolding dechunk
dechunk_round fuel input bytes rest size body h =
    rw
      (
        size,
        body,
        drop-skip bytes (13 ∷ 10 ∷ rest) (length bytes + 2) 2 refl,
        take-append bytes (13 ∷ 10 ∷ rest),
      )
      (ground arith)

pub dechunk-chunk :
    (fuel : ℕ) (bytes rest : List ℕ)
    → 0 < length bytes
    → dechunk (suc fuel) (chunk bytes ++ rest)
      ≡ (dechunk fuel rest >>= λ more. some (bytes ++ more))
unfolding chunk
dechunk-chunk fuel bytes rest h =
    let digits = to_hex (length bytes) in
    let (line, body) =
      size_line-append digits (bytes ++ (13 ∷ 10 ∷ rest)) (to_hex_printable (length bytes)) in
    let shape : chunk bytes ++ rest ≡ digits ++ (13 ∷ 10 ∷ bytes ++ (13 ∷ 10 ∷ rest)) =
      append_assoc digits (crlf ++ (bytes ++ crlf)) rest
      ∙ ap (λ l. digits ++ (13 ∷ 10 ∷ l)) (append_assoc bytes crlf rest) in
    rw shape (
      dechunk_round fuel (digits ++ (13 ∷ 10 ∷ bytes ++ (13 ∷ 10 ∷ rest))) bytes rest
        (ap (value_from 16 0) line ∙ (value-to_string (length bytes)).1) body h)

pub dechunk-last_chunk :
    (fuel : ℕ) (rest : List ℕ) → dechunk (suc fuel) (last_chunk ++ rest) ≡ some []
unfolding dechunk value_from
dechunk-last_chunk fuel rest = refl
