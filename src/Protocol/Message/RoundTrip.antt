-- ===== src/Protocol/Message/RoundTrip.antt =====
-- packMessage and unpackMessage against each other.
use rtcvpn.Common.{
  ℕ, suc, zero, ◌+◌, ◌-◌, ◌^◌, ◌≤◌, ◌<◌, ◌≡◌, refl, sym, ap, ◌∙◌, arith, List, ◌++◌, none, some,
  ltb, if◌then◌else◌, length, take, le→ltb, lt→ltb, length-append, take-append, length-take,
  some_inj, Bool-cases, inl, inr, ltb→lt, append_assoc,
}
use rtcvpn.Protocol.Word.{big_endian32, store32-hton32, hton32-load32_big_endian}
use rtcvpn.Protocol.Message.{pack_message, unpack_message, uint32_max}

pub pack_message_fits :
    (bytes : List ℕ)
    → length bytes < 2 ^ 32
    → pack_message bytes ≡ some (big_endian32 (length bytes) ++ bytes)
unfolding pack_message
pack_message_fits bytes h =
    rw (le→ltb uint32_max (length bytes) (omega arith))
      (ap (λ b. some (b ++ bytes)) (store32-hton32 (length bytes)))

-- A message of 2^32 bytes or more is the error.
pub pack_message_too_long : (bytes : List ℕ) → 2 ^ 32 ≤ length bytes → pack_message bytes ≡ none
unfolding pack_message
pack_message_too_long bytes h = rw (lt→ltb uint32_max (length bytes) (omega arith))

pack_message-eq-some :
    (bytes packed : List ℕ)
    → pack_message bytes ≡ some packed
    → (length bytes < 2 ^ 32) × (packed ≡ big_endian32 (length bytes) ++ bytes)
pack_message-eq-some bytes packed h = elim (Bool-cases (ltb (length bytes) (2 ^ 32))) [
  | inl fits ↦
      let small = ltb→lt (length bytes) (2 ^ 32) fits in
      (small, some_inj (sym h ∙ pack_message_fits bytes small))
  | inr long ↦ cc (pack_message_too_long bytes (ground arith))
]

-- The reader on a length field and what follows it.
unpack_message_bytes :
    (n : ℕ) (tail : List ℕ)
    → n < 2 ^ 32
    → unpack_message (big_endian32 n ++ tail)
      ≡ (if ltb (length tail) n then none else some (record { payload = take n tail; len = n }))
unfolding unpack_message
unpack_message_bytes n tail h =
    let size : length (big_endian32 n ++ tail) - 4 ≡ length tail = omega arith in
    rw (
      hton32-load32_big_endian n tail h,
      le→ltb (length (big_endian32 n ++ tail)) 4 (omega arith),
      size,
    )

-- What pack_message packed unpacks to the same bytes and their length, also when other bytes
-- follow.
pub unpack-pack_message :
    (bytes packed rest : List ℕ)
    → pack_message bytes ≡ some packed
    → unpack_message (packed ++ rest) ≡ some (record { payload = bytes; len = length bytes })
unpack-pack_message bytes packed rest h =
    let (small, e) = pack_message-eq-some bytes packed h in
    rw (
      e,
      append_assoc (big_endian32 (length bytes)) bytes rest,
      unpack_message_bytes (length bytes) (bytes ++ rest) small,
      le→ltb (length (bytes ++ rest)) (length bytes) (omega (arith, length-append bytes rest)),
      take-append bytes rest,
    )

unpack_message_cut :
    (bytes : List ℕ) (k : ℕ)
    → length bytes < 2 ^ 32
    → k < length bytes + 4
    → unpack_message (take k (big_endian32 (length bytes) ++ bytes)) ≡ none
unfolding unpack_message
unpack_message_cut bytes zero h lt = refl
unpack_message_cut bytes (suc zero) h lt = refl
unpack_message_cut bytes (suc (suc zero)) h lt = refl
unpack_message_cut bytes (suc (suc (suc zero))) h lt = refl
unpack_message_cut bytes (suc (suc (suc (suc k)))) h lt =
    unpack_message_bytes (length bytes) (take k bytes) h
    ∙ rw (lt→ltb (length (take k bytes)) (length bytes) (omega (arith, length-take k bytes)))

-- A packed message that lost bytes at its end is refused.
pub unpack_message_truncated :
    (bytes packed : List ℕ) (k : ℕ)
    → pack_message bytes ≡ some packed
    → k < length packed
    → unpack_message (take k packed) ≡ none
unpack_message_truncated bytes packed k h lt =
    let (small, e) = pack_message-eq-some bytes packed h in
    rw e (unpack_message_cut bytes k small (omega (arith, ap length e)))
