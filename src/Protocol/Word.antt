-- ===== src/Protocol/Word.antt =====
-- Bytes and fixed-width words. Memory is a list of bytes; the host is little-endian, which
-- decides what `memcpy` of a uint32_t stores.
use rtcvpn.Common.{
  ℕ, ◌+◌, ◌*◌, ◌/◌, ◌%◌, ◌^◌, ◌<◌, ◌≡◌, arith, List, [], ◌∷◌, ◌++◌, ◌∙◌, All, get_or,
}

-- `static_cast<uint8_t>`, `static_cast<uint16_t>`, `static_cast<uint32_t>`.
abbrev pub u8 : ℕ → ℕ
u8 n = n % 2 ^ 8

abbrev pub u16 : ℕ → ℕ
u16 n = n % 2 ^ 16

abbrev pub u32 : ℕ → ℕ
u32 n = n % 2 ^ 32

abbrev pub IsByte : ℕ → Type 0
IsByte b = b < 256

abbrev pub AllBytes : List ℕ → Type 0
AllBytes = All IsByte

-- `memcpy(out, &v, 4)` and `memcpy(&v, data, 4)` on a little-endian host.
abbrev pub store32 : ℕ → List ℕ
store32 v = v % 256 ∷ v / 2 ^ 8 % 256 ∷ v / 2 ^ 16 % 256 ∷ v / 2 ^ 24 % 256 ∷ []

abbrev pub load32 : List ℕ → ℕ
load32 d = get_or d 0 0 + get_or d 1 0 * 2 ^ 8 + get_or d 2 0 * 2 ^ 16 + get_or d 3 0 * 2 ^ 24

-- FrameHeader::hton32, and htonl and ntohl of the platform. The four fields share no bit, so `|`
-- is `+`; `v & 0x0000FF00u` is the second byte in its place, and so on.
unfoldable pub hton32 : ℕ → ℕ
hton32 v =
    v % 256 * 2 ^ 24
    + v / 2 ^ 8 % 256 * 2 ^ 8 * 2 ^ 8
    + v / 2 ^ 16 % 256 * 2 ^ 16 / 2 ^ 8
    + v / 2 ^ 24 % 256 * 2 ^ 24 / 2 ^ 24

pub hton32-lt : (v : ℕ) → hton32 v < 2 ^ 32
unfolding hton32
hton32-lt v = omega arith

-- Swapping twice is the identity on 32-bit words.
pub hton32-hton32 : (v : ℕ) → v < 2 ^ 32 → hton32 (hton32 v) ≡ v
unfolding hton32
hton32-hton32 v h = omega arith

-- The big-endian bytes of a word.
abbrev pub big_endian32 : ℕ → List ℕ
big_endian32 v = v / 2 ^ 24 % 256 ∷ v / 2 ^ 16 % 256 ∷ v / 2 ^ 8 % 256 ∷ v % 256 ∷ []

abbrev pub from_big_endian32 : ℕ → ℕ → ℕ → ℕ → ℕ
from_big_endian32 a b c d = a * 2 ^ 24 + b * 2 ^ 16 + c * 2 ^ 8 + d

bytes-hton32 :
    (v : ℕ)
    → (hton32 v % 256 ≡ v / 2 ^ 24 % 256)
      × (hton32 v / 2 ^ 8 % 256 ≡ v / 2 ^ 16 % 256)
      × (hton32 v / 2 ^ 16 % 256 ≡ v / 2 ^ 8 % 256)
      × (hton32 v / 2 ^ 24 % 256 ≡ v % 256)
unfolding hton32
bytes-hton32 v = (omega arith, omega arith, omega arith, omega arith)

-- Storing a swapped word stores its big-endian bytes.
pub store32-hton32 : (v : ℕ) → store32 (hton32 v) ≡ big_endian32 v
store32-hton32 v = let b = bytes-hton32 v in ground (arith, b.0, b.1, b.2, b.3)

-- Reading four bytes and swapping reads them as a big-endian word.
pub hton32-load32 :
    (a b c d : ℕ) (rest : List ℕ)
    → IsByte a
    → IsByte b
    → IsByte c
    → IsByte d
    → hton32 (load32 (a ∷ b ∷ c ∷ d ∷ rest)) ≡ from_big_endian32 a b c d
unfolding hton32
hton32-load32 a b c d rest ha hb hc hd = omega arith

pub mod-IsByte : (v : ℕ) → IsByte (v % 256)
mod-IsByte v = omega arith

pub from_big_endian32-bytes :
    (v : ℕ)
    → v < 2 ^ 32
    → from_big_endian32 (v / 2 ^ 24 % 256) (v / 2 ^ 16 % 256) (v / 2 ^ 8 % 256) (v % 256) ≡ v
from_big_endian32-bytes v h = omega arith

-- Four bytes that hold a word in big-endian order load as that word.
pub hton32-load32_big_endian :
    (v : ℕ) (rest : List ℕ) → v < 2 ^ 32 → hton32 (load32 (big_endian32 v ++ rest)) ≡ v
hton32-load32_big_endian v rest h =
    hton32-load32 _ _ _ _ rest (mod-IsByte (v / 2 ^ 24)) (mod-IsByte (v / 2 ^ 16))
      (mod-IsByte (v / 2 ^ 8)) (mod-IsByte v)
    ∙ from_big_endian32-bytes v h

pub big_endian32-load :
    (a b c d : ℕ)
    → IsByte a
    → IsByte b
    → IsByte c
    → IsByte d
    → big_endian32 (from_big_endian32 a b c d) ≡ a ∷ b ∷ c ∷ d ∷ []
big_endian32-load a b c d ha hb hc hd = ground arith
