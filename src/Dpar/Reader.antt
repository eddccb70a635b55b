-- ===== src/Dpar/Reader.antt =====
-- dpar.hpp: the runtime field reader against the reader of wire specs.
use nanotins.Shared.{
  ℕ, zero, suc, ◌+◌, ◌-◌, ◌*◌, ◌%◌, ◌^◌, ◌<◌, ◌≤◌, ◌≡◌, refl, sym, ap, ◌∙◌, arith, List, [], ◌∷◌,
}
use nanotins.Shared.{length, Option, none, some, Bool, true, ◌&&◌, ltb, leb}
use nanotins.Shared.{◌>>=◌, if◌then◌else◌, >>=-eq-some, Bool-cases, inl, inr, bit_or, bit_and}
use nanotins.Shared.Bits.{shr, u8, u16, u64, shl, or_high-low}
use nanotins.Shared.Buffer.{IsBytes, byte, byte_at, byte-lt}
use native.Mathlib.Nat.{
  pow-suc, mul_assoc, mul-le-mul_left, one-le-pow, pow-le-pow_right, mod-eq_of_lt,
}
use nanotins.WireSpec.{
  WireEndian, Spec, Field, named_field, named_bit_field, named_bytes_field, big_loop, little_loop,
  bit_shift, number, read_scalar_at, read_field, as_number,
}
use nanotins.Shared.{get_elem?}
use nanotins.Dag.{
  Node, eth, vlan, ipv4, ipv6, tcp, udp, gptp, ptp_timestamp, ptp_ts_port, ptp_announce,
  ptp_signaling, ipv6_hop_by_hop, ipv6_routing, ipv6_fragment, ipv6_dest_opt, ipv6_ah, someip, spec,
}
use nanotins.Dag.Nodes.{node_id}
use nanotins.Dpar.{FieldRef, read_field_runtime}
use nanotins.Dpar.Catalog.{is_big, scalar_ref, bit_ref, field_to_ref}
use mathlib.Core.Option.{some-injective}

-- The casts of a field's numbers drop nothing, and the field fits 64 bits.
abbrev pub fits : Field → Bool
fits (named_field t o n e) = ltb o (2 ^ 16) && leb n 8
fits (named_bit_field t o n b w e) = ltb o (2 ^ 16) && (leb n 8 && leb (b + w) (8 * n))
fits (named_bytes_field t o n) = true

abbrev all_fit : Spec → Bool
all_fit [] = true
all_fit (f ∷ fs) = fits f && all_fit fs

spec-fits : (n : Node) → all_fit (spec n) ≡ true
spec-fits eth = refl
spec-fits vlan = refl
spec-fits ipv4 = refl
spec-fits ipv6 = refl
spec-fits tcp = refl
spec-fits udp = refl
spec-fits gptp = refl
spec-fits ptp_timestamp = refl
spec-fits ptp_ts_port = refl
spec-fits ptp_announce = refl
spec-fits ptp_signaling = refl
spec-fits ipv6_hop_by_hop = refl
spec-fits ipv6_routing = refl
spec-fits ipv6_fragment = refl
spec-fits ipv6_dest_opt = refl
spec-fits ipv6_ah = refl
spec-fits someip = refl

all_fit-elem :
    (fs : Spec) (i : ℕ) (f : Field) → all_fit fs ≡ true → get_elem? fs i ≡ some f → fits f ≡ true
all_fit-elem [] i f h e = cc
all_fit-elem (g ∷ fs) zero f h e = let same : g ≡ f = cc e in rw⁻¹ same (ground arith)
all_fit-elem (g ∷ fs) (suc i) f h e = all_fit-elem fs i f (ground arith) e

pub field-fits : (n : Node) (i : ℕ) (f : Field) → get_elem? (spec n) i ≡ some f → fits f ≡ true
field-fits n i f e = all_fit-elem (spec n) i f (spec-fits n) e

pow_8 : (n : ℕ) → 2 ^ (8 * suc n) ≡ 256 * 2 ^ (8 * n)
pow_8 n =
    let e : 8 * suc n ≡ suc (suc (suc (suc (suc (suc (suc (suc (8 * n)))))))) = omega arith in
    ap (λ (k : ℕ). 2 ^ k) e
    ∙ omega (
      arith,
      pow-suc 2 (8 * n),
      pow-suc 2 (suc (8 * n)),
      pow-suc 2 (suc (suc (8 * n))),
      pow-suc 2 (suc (suc (suc (8 * n)))),
      pow-suc 2 (suc (suc (suc (suc (8 * n))))),
      pow-suc 2 (suc (suc (suc (suc (suc (8 * n)))))),
      pow-suc 2 (suc (suc (suc (suc (suc (suc (8 * n))))))),
      pow-suc 2 (suc (suc (suc (suc (suc (suc (suc (8 * n)))))))),
    )

byte_at-lt_256 : (mem : List ℕ) (i b : ℕ) → IsBytes mem → byte_at mem i ≡ some b → b < 256
unfolding byte_at
byte_at-lt_256 mem i b bytes e = elim (Bool-cases (ltb i (length mem))) [
  | inr out ↦ cc (rw out at e)
  | inl in_range ↦
      let same : some (byte mem i) ≡ some b = rw in_range at e in
      let eq : byte mem i ≡ b = cc same in omega (arith, byte-lt mem i bytes, eq)
]

-- One round of a loop over bytes, when the word is below `c`.
round :
    (n v c b : ℕ)
    → v < c
    → c * 2 ^ (8 * suc n) ≤ 2 ^ 64
    → b < 256
    → (bit_or (u64 (shl v 8)) b < c * 256) × (c * 256 * 2 ^ (8 * n) ≡ c * 2 ^ (8 * suc n))
round n v c b h small hb =
    let same : c * 256 * 2 ^ (8 * n) ≡ c * 2 ^ (8 * suc n) =
      mul_assoc c 256 (2 ^ (8 * n)) ∙ ap (λ (k : ℕ). c * k) (sym (pow_8 n)) in
    let room : c * 256 * 1 ≤ c * 256 * 2 ^ (8 * n) =
      mul-le-mul_left (c * 256) (one-le-pow (8 * n) 2 (omega arith)) in
    let kept : u64 (shl v 8) ≡ v * 2 ^ 8 = omega arith in
    (rw kept (omega (arith, or_high-low 8 v b hb)), same)

-- The word that a loop over `n` bytes makes, when it starts below `c`.
big_loop-lt :
    (mem : List ℕ) (at n v c r : ℕ)
    → IsBytes mem
    → v < c
    → c * 2 ^ (8 * n) ≤ 2 ^ 64
    → big_loop mem at n v ≡ some r
    → r < c * 2 ^ (8 * n)
unfolding big_loop
big_loop-lt mem at zero v c r bytes h small e = let same : v ≡ r = cc e in omega arith
big_loop-lt mem at (suc n) v c r bytes h small e =
    let (b, eb, rest) = >>=-eq-some (byte_at mem at) _ e in
    let (lt, same) = round n v c b h small (byte_at-lt_256 mem at b bytes eb) in
    rw⁻¹ same (
      big_loop-lt mem (at + 1) n (bit_or (u64 (shl v 8)) b) (c * 256) r bytes lt
        (omega (arith, same)) rest)

little_loop-lt :
    (mem : List ℕ) (at n v c r : ℕ)
    → IsBytes mem
    → v < c
    → c * 2 ^ (8 * n) ≤ 2 ^ 64
    → little_loop mem at n v ≡ some r
    → r < c * 2 ^ (8 * n)
unfolding little_loop
little_loop-lt mem at zero v c r bytes h small e = let same : v ≡ r = cc e in omega arith
little_loop-lt mem at (suc n) v c r bytes h small e =
    let (b, eb, rest) = >>=-eq-some (byte_at mem (at + n)) _ e in
    let (lt, same) = round n v c b h small (byte_at-lt_256 mem (at + n) b bytes eb) in
    rw⁻¹ same (
      little_loop-lt mem at n (bit_or (u64 (shl v 8)) b) (c * 256) r bytes lt (omega (arith, same))
        rest)

-- Up to 8 bytes, the cast of a scalar to its own width drops nothing.
width_room : (n : ℕ) → n ≤ 8 → 1 * 2 ^ (8 * n) ≤ 2 ^ 64
width_room n h =
    let top : 2 ^ (8 * n) ≤ 2 ^ 64 =
      pow-le-pow_right {n = 2} (omega arith) {i = 8 * n} {j = 64} (omega arith) in
    omega arith

cast_none :
    (n : ℕ) (m : Option ℕ)
    → ((r : ℕ) → m ≡ some r → r < 1 * 2 ^ (8 * n))
    → (m >>= λ v. some (v % 2 ^ (8 * n))) ≡ m
cast_none n none h = refl
cast_none n (some v) h = ap some (mod-eq_of_lt (omega (arith, h v refl)))

read_scalar_at-word :
    (mem : List ℕ) (base o n : ℕ) (e : WireEndian)
    → IsBytes mem
    → n ≤ 8
    → read_scalar_at e mem base o n
      ≡ (if is_big e then big_loop mem (base + o) n 0 else little_loop mem (base + o) n 0)
unfolding read_scalar_at
read_scalar_at-word mem base o n WireEndian.big bytes h =
    cast_none n (big_loop mem (base + o) n 0)
      (λ r. big_loop-lt mem (base + o) n 0 1 r bytes (omega arith) (width_room n h))
read_scalar_at-word mem base o n WireEndian.little bytes h =
    cast_none n (little_loop mem (base + o) n 0)
      (λ r. little_loop-lt mem (base + o) n 0 1 r bytes (omega arith) (width_room n h))

number_back :
    (m : Option ℕ) (g : ℕ → ℕ)
    → (m >>= λ v. some (g v)) ≡ (m >>= (λ v. some (number (g v))) >>= as_number)
number_back none g = refl
number_back (some v) g = refl

shift_same :
    (e : WireEndian) (k b w : ℕ)
    → k ≤ 8
    → b + w ≤ 8 * k
    → (if is_big e then u64 (k * 8 + 2 ^ 64 - w + 2 ^ 64 - b) else b) ≡ bit_shift e k b w
shift_same WireEndian.big k b w h fit = omega arith
shift_same WireEndian.little k b w h fit = refl

mask_same : (w : ℕ) → w ≤ 64 → (if leb 64 w then 2 ^ 64 - 1 else 2 ^ w - 1) ≡ 2 ^ w - 1
mask_same w h = elim (Bool-cases (leb 64 w)) [
  | inr e ↦ rw e refl
  | inl e ↦ let top : w ≡ 64 = ground arith in rw e (ap (λ (k : ℕ). 2 ^ k - 1) (sym top))
]

-- The runtime reader is the reader of wire specs: for every scalar and bit field of every node of the
-- graph, read_field_runtime with the reference that the catalog holds for the field gives on every
-- byte buffer and at every base what read_field gives, faults outside the buffer included.
pub read_field_runtime-read_field :
    (mem : List ℕ) (base : ℕ) (n : Node) (i : ℕ) (f : Field) (ref : FieldRef)
    → IsBytes mem
    → get_elem? (spec n) i ≡ some f
    → field_to_ref (node_id n) f ≡ some ref
    → read_field_runtime mem base ref ≡ (read_field mem base f >>= as_number)
unfolding read_field_runtime read_field
read_field_runtime-read_field mem base n i (named_bytes_field t o k) ref bytes at made = cc
read_field_runtime-read_field mem base n i (named_field t o k e) ref bytes at made =
    let fit = field-fits n i (named_field t o k e) at in
    let small : u16 o ≡ o = ground arith in
    let thin : u8 k ≡ k = ground arith in
    rw⁻¹ (some-injective (scalar_ref (node_id n) o k e) ref made) (
      rw small (
        rw thin (
          rw (read_scalar_at-word mem base o k e bytes (ground arith)) (
            number_back
              (if is_big e then big_loop mem (base + o) k 0 else little_loop mem (base + o) k 0)
              (λ v. v)))))
read_field_runtime-read_field mem base n i (named_bit_field t o k b w e) ref bytes at made =
    let fit = field-fits n i (named_bit_field t o k b w e) at in
    let small : u16 o ≡ o = ground arith in
    let thin : u8 k ≡ k = ground arith in
    let skipped : u8 b ≡ b = ground arith in
    let narrow : u8 w ≡ w = ground arith in
    rw⁻¹ (some-injective (bit_ref (node_id n) o k b w e) ref made) (
      rw small (
        rw thin (
          rw skipped (
            rw narrow (
              rw (read_scalar_at-word mem base o k e bytes (ground arith)) (
                rw (shift_same e k b w (ground arith) (ground arith)) (
                  rw (mask_same w (ground arith)) (
                    number_back
                      (if is_big e
                        then big_loop mem (base + o) k 0
                        else little_loop mem (base + o) k 0)
                      (λ v. bit_and (shr v (bit_shift e k b w)) (2 ^ w - 1))))))))))
