-- ===== src/Pcap/Readers.antt =====
-- pcap_blocks.hpp: the byte-order aware readers as values. A read inside the buffer does not fault.
use nanotins.Shared.{ℕ, ◌+◌, ◌*◌, ◌/◌, ◌^◌, ◌≤◌, ◌<◌, bit_or, ◌≡◌, ap, ◌∙◌, arith}
use nanotins.Shared.{none, some, Bool, true, false, List, length, if◌then◌else◌}
use nanotins.Shared.Bits.{u16, u32, shl, or_low-high, and_mask, and_digit}
use nanotins.Shared.Buffer.{byte, byte_at-lt, byte_at-ge, IsBytes, byte-lt}
use nanotins.Pcap.{rd16, rd32, pad4}

abbrev pub word16 : List ℕ → ℕ → Bool → ℕ
word16 mem p le = u16 (
    if le
    then bit_or (byte mem p) (shl (byte mem (p + 1)) 8)
    else bit_or (shl (byte mem p) 8) (byte mem (p + 1)))

abbrev pub word32 : List ℕ → ℕ → Bool → ℕ
word32 mem p le =
    let a = byte mem p in
    let b = byte mem (p + 1) in
    let c = byte mem (p + 2) in
    let d = byte mem (p + 3) in
    if le
    then bit_or (bit_or (bit_or a (shl b 8)) (shl c 16)) (shl d 24)
    else bit_or (bit_or (bit_or d (shl c 8)) (shl b 16)) (shl a 24)

module _ (mem : List ℕ) (p : ℕ) (le : Bool) where
  pub rd16-word16 : p + 2 ≤ length mem → rd16 mem p le ≡ some (word16 mem p le)
  unfolding rd16
  rd16-word16 h = rw (byte_at-lt mem p (omega arith)) (rw (byte_at-lt mem (p + 1) (omega arith)))

  pub rd32-word32 : p + 4 ≤ length mem → rd32 mem p le ≡ some (word32 mem p le)
  unfolding rd32
  rd32-word32 h = rw (byte_at-lt mem p (omega arith)) (
      rw (byte_at-lt mem (p + 1) (omega arith))
        (rw (byte_at-lt mem (p + 2) (omega arith)) (rw (byte_at-lt mem (p + 3) (omega arith)))))

-- The four bytes of a word, least significant first.
abbrev pub sum4 : ℕ → ℕ → ℕ → ℕ → ℕ
sum4 a b c d = a + 256 * b + 65536 * c + 16777216 * d

or4 :
    (a b c d : ℕ)
    → a < 256
    → b < 256
    → c < 256
    → d < 256
    → bit_or (bit_or (bit_or a (shl b 8)) (shl c 16)) (shl d 24) ≡ sum4 a b c d
or4 a b c d ha hb hc hd = rw (or_low-high 8 a b (omega arith)) (
    rw (or_low-high 16 (b * 2 ^ 8 + a) c (omega arith))
      (rw (or_low-high 24 (c * 2 ^ 16 + (b * 2 ^ 8 + a)) d (omega arith)) (omega arith)))

-- On a buffer of bytes the reader of 32 bits gives the positional value of the four bytes at `p`: the
-- first byte is the least significant in the little-endian order and the most significant in the
-- other.
pub rd32_value :
    (mem : List ℕ) (p : ℕ)
    → IsBytes mem
    → p + 4 ≤ length mem
    → (rd32 mem p true
        ≡ some (sum4 (byte mem p) (byte mem (p + 1)) (byte mem (p + 2)) (byte mem (p + 3))))
      × (rd32 mem p false
          ≡ some (sum4 (byte mem (p + 3)) (byte mem (p + 2)) (byte mem (p + 1)) (byte mem p)))
rd32_value mem p bytes h =
    let b0 = byte-lt mem p bytes in
    let b1 = byte-lt mem (p + 1) bytes in
    let b2 = byte-lt mem (p + 2) bytes in
    let b3 = byte-lt mem (p + 3) bytes in
    (
      rd32-word32 mem p true h ∙ ap some (or4 _ _ _ _ b0 b1 b2 b3),
      rd32-word32 mem p false h ∙ ap some (or4 _ _ _ _ b3 b2 b1 b0),
    )

pub word32-lt : (mem : List ℕ) (p : ℕ) (le : Bool) → IsBytes mem → word32 mem p le < 2 ^ 32
word32-lt mem p true bytes =
    rw
      (or4 _ _ _ _ (byte-lt mem p bytes) (byte-lt mem (p + 1) bytes) (byte-lt mem (p + 2) bytes)
        (byte-lt mem (p + 3) bytes))
      (omega (
        arith,
        byte-lt mem p bytes,
        byte-lt mem (p + 1) bytes,
        byte-lt mem (p + 2) bytes,
        byte-lt mem (p + 3) bytes,
      ))
word32-lt mem p false bytes =
    rw
      (or4 _ _ _ _ (byte-lt mem (p + 3) bytes) (byte-lt mem (p + 2) bytes)
        (byte-lt mem (p + 1) bytes) (byte-lt mem p bytes))
      (omega (
        arith,
        byte-lt mem p bytes,
        byte-lt mem (p + 1) bytes,
        byte-lt mem (p + 2) bytes,
        byte-lt mem (p + 3) bytes,
      ))

pub pad4-arith : (n : ℕ) → pad4 n ≡ u32 (n + 3) / 4 * 4
unfolding pad4
pad4-arith n = ground (
  arith,
  and_digit (u32 (n + 3)) 0xFFFF_FFFC,
  and_digit (u32 (n + 3) / 2) 0x7FFF_FFFE,
  and_mask 30 (u32 (n + 3) / 2 / 2),
)

pub rd16_outside : (mem : List ℕ) (p : ℕ) (le : Bool) → length mem ≤ p → rd16 mem p le ≡ none
unfolding rd16
rd16_outside mem p le h = rw (byte_at-ge mem p h)
