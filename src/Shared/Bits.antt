-- ===== src/Shared/Bits.antt =====
-- `|` of disjoint bit ranges and `&` with a low mask, as arithmetic, at every width.
use Prim.Native.Nat.{ℕ, zero, suc, ◌+◌, ◌-◌, ◌*◌, ◌/◌, ◌%◌, ◌^◌, ◌≤◌, ◌<◌, min, max}
use Prim.Native.Nat.{bit_and, bit_or, digits, bit_and-bitwise, bit_or-bitwise}
use mathlib.Core.Path.{◌≡◌, refl, ap}
use native.Mathlib.Omega.{arith}
use native.Mathlib.Nat.{pow-suc, one-le-pow}

-- `v << k` and `v >> k` before the cast to a width, and the casts.
abbrev pub shl : ℕ → ℕ → ℕ
shl v k = v * 2 ^ k

abbrev pub shr : ℕ → ℕ → ℕ
shr v k = v / 2 ^ k

abbrev pub u8 : ℕ → ℕ
u8 v = v % 2 ^ 8

abbrev pub u16 : ℕ → ℕ
u16 v = v % 2 ^ 16

abbrev pub u32 : ℕ → ℕ
u32 v = v % 2 ^ 32

abbrev pub u64 : ℕ → ℕ
u64 v = v % 2 ^ 64

-- The native operations are digit recursions on fuel; any two amounts that cover the number agree.
module _ (rest : ℕ → ℕ) (bit : ℕ → ℕ → ℕ) where
  fuel_agrees : (j k a b : ℕ) → a ≤ j → a ≤ k → digits rest bit j a b ≡ digits rest bit k a b
  fuel_agrees zero zero zero b _ _ = refl
  fuel_agrees zero (suc k) zero b _ _ = refl
  fuel_agrees (suc j) zero zero b _ _ = refl
  fuel_agrees (suc j) (suc k) zero b _ _ = refl
  fuel_agrees zero k (suc a) b hj _ = absurd (omega arith)
  fuel_agrees (suc j) zero (suc a) b _ hk = absurd (omega arith)
  fuel_agrees (suc j) (suc k) (suc a) b hj hk =
      ap (λ d. d * 2 + bit (suc a % 2) (b % 2))
        (fuel_agrees j k (suc a / 2) (b / 2) (omega arith) (omega arith))

  lowest_digit :
      (a b : ℕ)
      → digits rest bit (suc a) (suc a) b
        ≡ digits rest bit (suc a / 2) (suc a / 2) (b / 2) * 2 + bit (suc a % 2) (b % 2)
  lowest_digit a b =
      ap (λ d. d * 2 + bit (suc a % 2) (b % 2))
        (fuel_agrees a (suc a / 2) (suc a / 2) (b / 2) (omega arith) (omega arith))

or_digit : (a b : ℕ) → bit_or a b ≡ bit_or (a / 2) (b / 2) * 2 + max (a % 2) (b % 2)
or_digit zero b = simp bit_or-bitwise (omega arith)
or_digit (suc a) b = simp bit_or-bitwise (lowest_digit (λ y. y) max a b)

pub and_digit : (a b : ℕ) → bit_and a b ≡ bit_and (a / 2) (b / 2) * 2 + min (a % 2) (b % 2)
and_digit zero b = simp bit_and-bitwise (omega arith)
and_digit (suc a) b = simp bit_and-bitwise (lowest_digit (λ y. 0) min a b)

zero-or : (b : ℕ) → bit_or 0 b ≡ b
zero-or b = bit_or-bitwise 0 b

or-zero_below : (k a : ℕ) → a ≤ k → bit_or a 0 ≡ a
or-zero_below k zero h = refl
or-zero_below zero (suc a) h = absurd (omega arith)
or-zero_below (suc k) (suc a) h =
    omega (arith, or_digit (suc a) 0, or-zero_below k (suc a / 2) (omega arith))

and-zero_below : (k a : ℕ) → a ≤ k → bit_and a 0 ≡ 0
and-zero_below k zero h = refl
and-zero_below zero (suc a) h = absurd (omega arith)
and-zero_below (suc k) (suc a) h =
    omega (arith, and_digit (suc a) 0, and-zero_below k (suc a / 2) (omega arith))

double_pow : (q k : ℕ) → q * 2 ^ suc k ≡ 2 * (q * 2 ^ k)
double_pow q k = omega (arith, ap (λ (t : ℕ). q * t) (pow-suc 2 k))

-- `(hi << k) | lo`, where `lo` fits `k` bits.
pub or_high-low : (k hi lo : ℕ) → lo < 2 ^ k → bit_or (hi * 2 ^ k) lo ≡ hi * 2 ^ k + lo
or_high-low zero hi lo h = ground (arith, or-zero_below hi hi)
or_high-low (suc k) hi lo h = ground (
  arith,
  or_digit (hi * 2 ^ suc k) lo,
  double_pow hi k,
  pow-suc 2 k,
  or_high-low k hi (lo / 2) (omega (arith, pow-suc 2 k)),
)

-- `lo | (hi << k)`.
pub or_low-high : (k lo hi : ℕ) → lo < 2 ^ k → bit_or lo (hi * 2 ^ k) ≡ hi * 2 ^ k + lo
or_low-high zero lo hi h = ground (arith, zero-or hi)
or_low-high (suc k) lo hi h = ground (
  arith,
  or_digit lo (hi * 2 ^ suc k),
  double_pow hi k,
  pow-suc 2 k,
  or_low-high k (lo / 2) hi (omega (arith, pow-suc 2 k)),
)

and_low_bits : (k q r : ℕ) → r < 2 ^ k → bit_and (q * 2 ^ k + r) (2 ^ k - 1) ≡ r
and_low_bits zero q r h =
    omega (arith, and-zero_below (q * 2 ^ 0 + r) (q * 2 ^ 0 + r) (omega arith))
and_low_bits (suc k) q r h = ground (
  arith,
  and_digit (q * 2 ^ suc k + r) (2 ^ suc k - 1),
  double_pow q k,
  pow-suc 2 k,
  and_low_bits k q (r / 2) (omega (arith, pow-suc 2 k)),
)

-- `v & (2 ^ k - 1)`.
pub and_mask : (k v : ℕ) → bit_and v (2 ^ k - 1) ≡ v % 2 ^ k
and_mask k v = ground (arith, one-le-pow k 2, and_low_bits k (v / 2 ^ k) (v % 2 ^ k))
