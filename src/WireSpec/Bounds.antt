-- ===== src/WireSpec/Bounds.antt =====
-- wire_spec.hpp: a header that fits can be read, field by field.
use nanotins.Shared.{ℕ, zero, suc, ◌+◌, ◌*◌, ◌%◌, ◌^◌, ◌≤◌, ◌≡◌, refl, arith, List, [], ◌∷◌}
use nanotins.Shared.{Option, some, Bool, true, false, ltb, length, All, ◌>>=◌, if◌then◌else◌}
use nanotins.Shared.{bit_and, subst, ◌-◌, Bool-cases, inl, inr, >>=-eq-some, ap}
use nanotins.Shared.Bits.{shr}
use nanotins.Shared.Buffer.{byte, byte_at, byte_at-lt}
use nanotins.WireSpec.{
  Field, named_field, named_bit_field, named_bytes_field, Spec, WireEndian, tag, end_offset, extent,
  spec_size, big_loop, little_loop, read_scalar_at, read_bytes, read_field, find_tag, as_number,
  view, number, blob, bit_shift,
}
use Prim.Native.String.{String}
use text.Mathlib.Text.{◌==◌ as str_eq}

abbrev pub IsRead {ℓ} : {A : Type ℓ} → Option A → Type ℓ
IsRead {A} o = (a : A) × (o ≡ some a)

pub big_loop-IsRead :
    (mem : List ℕ) (at n v : ℕ) → at + n ≤ length mem → IsRead (big_loop mem at n v)
unfolding big_loop
big_loop-IsRead mem at zero v h = (v, refl)
big_loop-IsRead mem at (suc n) v h =
    rw (byte_at-lt mem at (omega arith)) (big_loop-IsRead mem (at + 1) n _ (omega arith))

pub little_loop-IsRead :
    (mem : List ℕ) (at n v : ℕ) → at + n ≤ length mem → IsRead (little_loop mem at n v)
unfolding little_loop
little_loop-IsRead mem at zero v h = (v, refl)
little_loop-IsRead mem at (suc n) v h =
    rw (byte_at-lt mem (at + n) (omega arith)) (little_loop-IsRead mem at n _ (omega arith))

pub read_scalar_at-IsRead :
    (e : WireEndian) (mem : List ℕ) (p off n : ℕ)
    → p + off + n ≤ length mem
    → IsRead (read_scalar_at e mem p off n)
unfolding read_scalar_at
read_scalar_at-IsRead WireEndian.big mem p off n h =
    let (v, e) = big_loop-IsRead mem (p + off) n 0 h in (v % 2 ^ (8 * n), rw e)
read_scalar_at-IsRead WireEndian.little mem p off n h =
    let (v, e) = little_loop-IsRead mem (p + off) n 0 h in (v % 2 ^ (8 * n), rw e)

pub length-read_bytes :
    (mem : List ℕ) (at n : ℕ) (bs : List ℕ) → read_bytes mem at n ≡ some bs → length bs ≡ n
unfolding read_bytes
length-read_bytes mem at zero bs h = let empty : [] ≡ bs = cc h in rw⁻¹ empty refl
length-read_bytes mem at (suc n) bs h =
    let (b, e, h1) = >>=-eq-some (byte_at mem at) _ h in
    let (rest, e', h2) = >>=-eq-some (read_bytes mem (at + 1) n) (λ bs. some (b ∷ bs)) h1 in
    let split : b ∷ rest ≡ bs = cc h2 in
    rw⁻¹ split (ap suc (length-read_bytes mem (at + 1) n rest e'))

pub read_bytes-IsRead :
    (mem : List ℕ) (at n : ℕ) → at + n ≤ length mem → IsRead (read_bytes mem at n)
unfolding read_bytes
read_bytes-IsRead mem at zero h = ([], refl)
read_bytes-IsRead mem at (suc n) h =
    let (bs, e) = read_bytes-IsRead mem (at + 1) n (omega arith) in
    (byte mem at ∷ bs, rw (byte_at-lt mem at (omega arith)) (rw e))

-- A field is a scalar or a bit field.
abbrev pub is_numeric : Field → Bool
is_numeric (named_field t o n e) = true
is_numeric (named_bit_field t o n b w e) = true
is_numeric (named_bytes_field t o n) = false

pub IsRead-map {ℓ κ} :
    {A : Type ℓ} {B : Type κ} (m : Option A) (f : A → B) → IsRead m → IsRead (m >>= λ a. some (f a))
IsRead-map m f (a, e) = (f a, rw e)

pub IsRead->>= {ℓ κ} :
    {A : Type ℓ} {B : Type κ} (m : Option A) (f : A → Option B)
    → IsRead m
    → ((a : A) → IsRead (f a))
    → IsRead (m >>= f)
IsRead->>= m f (a, e) h = rw e (h a)

pub read_field-IsRead :
    (mem : List ℕ) (p : ℕ) (f : Field) → p + end_offset f ≤ length mem → IsRead (read_field mem p f)
unfolding read_field
read_field-IsRead mem p (named_field t o n e) h =
    IsRead-map _ number (read_scalar_at-IsRead e mem p o n (omega arith))
read_field-IsRead mem p (named_bit_field t o n b w e) h =
    IsRead-map _ _ (read_scalar_at-IsRead e mem p o n (omega arith))
read_field-IsRead mem p (named_bytes_field t o n) h =
    IsRead-map _ blob (read_bytes-IsRead mem (p + o) n (omega arith))

scalar-IsRead :
    (mem : List ℕ) (p : ℕ) (f : Field)
    → is_numeric f ≡ true
    → p + end_offset f ≤ length mem
    → IsRead (read_field mem p f >>= as_number)
unfolding read_field
scalar-IsRead mem p (named_field t o n e) num h =
    let (v, r) = read_scalar_at-IsRead e mem p o n (omega arith) in (v, rw r)
scalar-IsRead mem p (named_bit_field t o n b w e) num h =
    let (v, r) = read_scalar_at-IsRead e mem p o n (omega arith) in
    (bit_and (shr v (bit_shift e n b w)) (2 ^ w - 1), rw r)
scalar-IsRead mem p (named_bytes_field t o n) num h = cc

le-extent : (mx : ℕ) (fs : Spec) → mx ≤ extent mx fs
le-extent mx [] = omega arith
le-extent mx (f ∷ fs) = ground (arith, le-extent mx fs, le-extent (end_offset f) fs)

-- `spec_size` bounds the end of every field.
pub end_offset-le-extent : (mx : ℕ) (fs : Spec) → All (λ f. end_offset f ≤ extent mx fs) fs
end_offset-le-extent mx [] = tt
end_offset-le-extent mx (f ∷ fs) = (
  ground (arith, le-extent mx fs, le-extent (end_offset f) fs),
  end_offset-le-extent (if ltb mx (end_offset f) then end_offset f else mx) fs,
)

All-IsRead :
    (mem : List ℕ) (p size : ℕ) (fs : Spec)
    → p + size ≤ length mem
    → All (λ f. end_offset f ≤ size) fs
    → All (λ f. IsRead (read_field mem p f)) fs
All-IsRead mem p size [] h le = tt
All-IsRead mem p size (f ∷ fs) h le =
    (read_field-IsRead mem p f (omega arith), All-IsRead mem p size fs h le.1)

-- The fit check suffices: where `spec_size` bytes from `p` on lie inside the buffer, every field of
-- the spec, of any width, byte order or bit position, is read without leaving the buffer.
pub spec_size-reads :
    (mem : List ℕ) (p : ℕ) (spec : Spec)
    → p + spec_size spec ≤ length mem
    → All (λ f. IsRead (read_field mem p f)) spec
spec_size-reads mem p spec h =
    All-IsRead mem p (spec_size spec) spec h (end_offset-le-extent 0 spec)

find_tag-end :
    (size : ℕ) (fs : Spec) (t : String) (f : Field)
    → All (λ g. end_offset g ≤ size) fs
    → find_tag t fs ≡ some f
    → end_offset f ≤ size
find_tag-end size [] t f le e = cc
find_tag-end size (g ∷ fs) t f le e = elim (Bool-cases (str_eq (tag g) t)) [
  | inl hit ↦
      let found : some g ≡ some f = rw hit at e in
      let same : g ≡ f = cc found in subst (λ x. end_offset x ≤ size) same le.0
  | inr miss ↦ find_tag-end size fs t f le.1 (rw miss at e)
]

-- Named access to a scalar or bit field of a header that fits does not fault.
pub view-IsRead :
    (mem : List ℕ) (p : ℕ) (spec : Spec) (t : String) (f : Field)
    → find_tag t spec ≡ some f
    → is_numeric f ≡ true
    → p + spec_size spec ≤ length mem
    → IsRead (view mem p spec t)
unfolding view
view-IsRead mem p spec t f e num h = rw e (
    scalar-IsRead mem p f num
      (omega (arith, find_tag-end (spec_size spec) spec t f (end_offset-le-extent 0 spec) e)))
