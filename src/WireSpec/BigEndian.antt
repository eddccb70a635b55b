-- ===== src/WireSpec/BigEndian.antt =====
-- wire_spec.hpp: the reader of big-endian numbers reads back the numbers that were laid out on the
-- wire.
use nanotins.Shared.{ℕ, suc, ◌+◌, ◌*◌, ◌/◌, ◌%◌, ◌^◌, ◌<◌, ◌≡◌, ap, ◌∙◌, arith, subst}
use nanotins.Shared.{List, [], ◌∷◌, ◌++◌, length, length-append, some}
use nanotins.Shared.{bit_or}
use nanotins.Shared.Bits.{u64, shl, or_high-low}
use nanotins.Shared.Buffer.{byte_at, byte_at-append}
use nanotins.WireSpec.{big, read_scalar_at, big_loop}
use mathlib.Core.List.{append_assoc}

-- Numbers in network order.
abbrev pub be16 : ℕ → List ℕ
be16 n = n / 256 % 256 ∷ n % 256 ∷ []

abbrev pub be32 : ℕ → List ℕ
be32 n = n / 16777216 % 256 ∷ n / 65536 % 256 ∷ n / 256 % 256 ∷ n % 256 ∷ []

-- A byte more of the big-endian loop, on a value that leaves room for it.
big_loop-byte :
    (mem : List ℕ) (at n v b : ℕ)
    → v < 2 ^ 56
    → b < 256
    → byte_at mem at ≡ some b
    → big_loop mem at (suc n) v ≡ big_loop mem (at + 1) n (v * 256 + b)
unfolding big_loop
big_loop-byte mem at n v b hv hb e =
    let fits : u64 (shl v 8) ≡ v * 2 ^ 8 = omega arith in
    let joined : bit_or (u64 (shl v 8)) b ≡ v * 256 + b =
      rw fits (or_high-low 8 v b (omega arith) ∙ omega arith) in
    rw e (ap (λ w. big_loop mem (at + 1) n w) joined)

-- `mem` holds `bs` from offset `at` on.
abbrev pub Holds : List ℕ → ℕ → List ℕ → Type 0
Holds mem at [] = Unit
Holds mem at (b ∷ bs) = (byte_at mem at ≡ some b) × Holds mem (at + 1) bs

pub Holds-append :
    (front bs back : List ℕ) (at : ℕ) → at ≡ length front → Holds (front ++ (bs ++ back)) at bs
Holds-append front [] back at e = tt
Holds-append front (b ∷ bs) back at e =
    let here : length front + 0 ≡ at = omega arith in
    let split = append_assoc front (b ∷ []) (bs ++ back) in
    (
      subst (λ p. byte_at (front ++ (b ∷ (bs ++ back))) p ≡ some b) here
          (byte_at-append front (b ∷ (bs ++ back)) 0 (omega arith)),
      subst (λ m. Holds m (at + 1) bs) split
          (Holds-append (front ++ (b ∷ [])) bs back (at + 1)
            (omega (arith, length-append front (b ∷ [])))),
    )

-- The bytes behind the first ones.
pub Holds-drop :
    (mem : List ℕ) (at : ℕ) (xs ys : List ℕ)
    → Holds mem at (xs ++ ys)
    → Holds mem (at + length xs) ys
Holds-drop mem at [] ys h = subst (λ p. Holds mem p ys) (omega arith) h
Holds-drop mem at (x ∷ xs) ys (e, h) =
    subst (λ p. Holds mem p ys) (omega arith) (Holds-drop mem (at + 1) xs ys h)

pub Holds-take :
    (mem : List ℕ) (at : ℕ) (xs ys : List ℕ) → Holds mem at (xs ++ ys) → Holds mem at xs
Holds-take mem at [] ys h = tt
Holds-take mem at (x ∷ xs) ys (e, h) = (e, Holds-take mem (at + 1) xs ys h)

pub read-be16 :
    (mem : List ℕ) (p off n : ℕ)
    → n < 2 ^ 16
    → Holds mem (p + off) (be16 n)
    → read_scalar_at big mem p off 2 ≡ some n
unfolding read_scalar_at
read-be16 mem p off n small (e0, (e1, end)) =
    rw (big_loop-byte mem (p + off) 1 0 (n / 256 % 256) (omega arith) (omega arith) e0) (
      rw
        (big_loop-byte mem (p + off + 1) 0 (0 * 256 + n / 256 % 256) (n % 256) (omega arith)
          (omega arith) e1)
        (unfold big_loop in ap some (omega arith)))

pub read-be32 :
    (mem : List ℕ) (p off n : ℕ)
    → n < 2 ^ 32
    → Holds mem (p + off) (be32 n)
    → read_scalar_at big mem p off 4 ≡ some n
unfolding read_scalar_at
read-be32 mem p off n small (e0, (e1, (e2, (e3, end)))) =
    let at = p + off in
    let a = n / 16777216 % 256 in
    let b = n / 65536 % 256 in
    let c = n / 256 % 256 in
    rw (big_loop-byte mem at 3 0 a (omega arith) (omega arith) e0) (
      rw (big_loop-byte mem (at + 1) 2 (0 * 256 + a) b (omega arith) (omega arith) e1) (
        rw
          (big_loop-byte mem (at + 1 + 1) 1 ((0 * 256 + a) * 256 + b) c (omega arith) (omega arith)
            e2)
          (rw
            (big_loop-byte mem (at + 1 + 1 + 1) 0 (((0 * 256 + a) * 256 + b) * 256 + c) (n % 256)
              (omega arith) (omega arith) e3)
            (unfold big_loop in ap some (omega arith)))))
