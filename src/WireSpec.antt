-- ===== src/WireSpec.antt =====
-- nanotins/include/nanotins/wire_spec.hpp: declarative header specs and their reader. A leaf field is
-- a value here, where the source has a type; the tags are texts. A spec is its flattened field list.
pub mod Protocols
pub mod Bounds
pub mod BigEndian
use nanotins.Shared.{
  ℕ, zero, suc, ◌+◌, ◌-◌, ◌*◌, ◌%◌, ◌^◌, bit_or, bit_and, List, [], ◌∷◌, ◌++◌, map,
}
use nanotins.Shared.{Option, none, some, Bool, true, false, ltb, if◌then◌else◌, ◌>>=◌}
use nanotins.Shared.Bits.{u64, shl, shr}
use nanotins.Shared.Buffer.{byte_at}
use Prim.Native.String.{String}
use Prim.Native.String
use text.Mathlib.Text.{◌==◌ as str_eq}

pub data WireEndian : Type 0 where
  little big : WireEndian

-- named_field<Tag, Offset, T, E> with sizeof(T), named_bit_field<Tag, Offset, StorageT, BitOffset,
-- Width, E> with sizeof(StorageT), and named_bytes_field<Tag, Offset, N>.
pub data Field : Type 0 where
  named_field : String → (offset size : ℕ) → WireEndian → Field
  named_bit_field : String → (offset storage bit_offset width : ℕ) → WireEndian → Field
  named_bytes_field : String → (offset count : ℕ) → Field

abbrev pub Spec : Type 0
Spec = List Field

abbrev pub tag : Field → String
tag (named_field t o n e) = t
tag (named_bit_field t o n b w e) = t
tag (named_bytes_field t o n) = t

abbrev pub end_offset : Field → ℕ
end_offset (named_field t o n e) = o + n
end_offset (named_bit_field t o n b w e) = o + n
end_offset (named_bytes_field t o n) = o + n

-- embed<Prefix, Offset, SubSpec>: the sub-spec's fields, shifted, their tags prefixed.
abbrev pub shift_field : String → ℕ → Field → Field
shift_field prefix base (named_field t o n e) = named_field (String.◌++◌ prefix t) (base + o) n e
shift_field prefix base (named_bit_field t o n b w e) =
    named_bit_field (String.◌++◌ prefix t) (base + o) n b w e
shift_field prefix base (named_bytes_field t o n) =
    named_bytes_field (String.◌++◌ prefix t) (base + o) n

abbrev pub embed : String → ℕ → Spec → Spec
embed prefix base spec = map (shift_field prefix base) spec

-- The extent of a spec: the largest field end.
abbrev pub extent : ℕ → Spec → ℕ
extent mx [] = mx
extent mx (f ∷ fs) = extent (if ltb mx (end_offset f) then end_offset f else mx) fs

abbrev pub spec_size : Spec → ℕ
spec_size spec = extent 0 spec

-- `for (i = 0; i < n; ++i) v = (v << 8) | p[off + i];` on a uint64_t.
unfoldable pub big_loop : List ℕ → (at n v : ℕ) → Option ℕ
big_loop mem at zero v = some v
big_loop mem at (suc n) v =
    byte_at mem at >>= λ b. big_loop mem (at + 1) n (bit_or (u64 (shl v 8)) b)

-- `for (i = n; i-- > 0;) v = (v << 8) | p[off + i];`.
unfoldable pub little_loop : List ℕ → (at n v : ℕ) → Option ℕ
little_loop mem at zero v = some v
little_loop mem at (suc n) v =
    byte_at mem (at + n) >>= λ b. little_loop mem at n (bit_or (u64 (shl v 8)) b)

-- The final cast is to an unsigned type of `n` bytes; a signed field keeps its bit pattern.
unfoldable pub read_scalar_at : WireEndian → List ℕ → (p off n : ℕ) → Option ℕ
read_scalar_at WireEndian.big mem p off n =
    big_loop mem (p + off) n 0 >>= λ v. some (v % 2 ^ (8 * n))
read_scalar_at WireEndian.little mem p off n =
    little_loop mem (p + off) n 0 >>= λ v. some (v % 2 ^ (8 * n))

-- A field's value: a number, or the raw bytes of a byte-array field.
pub data Value : Type 0 where
  number : ℕ → Value
  blob : List ℕ → Value

unfoldable pub read_bytes : List ℕ → (at n : ℕ) → Option (List ℕ)
read_bytes mem at zero = some []
read_bytes mem at (suc n) =
    byte_at mem at >>= λ b. read_bytes mem (at + 1) n >>= λ bs. some (b ∷ bs)

-- Bit offsets count from the high bit in a big-endian unit, and from the low bit in a little-endian
-- one.
abbrev pub bit_shift : WireEndian → (storage bit_offset width : ℕ) → ℕ
bit_shift WireEndian.big storage bit_offset width = 8 * storage - width - bit_offset
bit_shift WireEndian.little storage bit_offset width = bit_offset

-- The cast to the smallest type that holds `width` bits drops nothing after the mask.
unfoldable pub read_field : List ℕ → ℕ → Field → Option Value
read_field mem p (named_field t o n e) = read_scalar_at e mem p o n >>= λ v. some (number v)
read_field mem p (named_bit_field t o n b w e) = read_scalar_at e mem p o n >>= λ unit.
    some (number (bit_and (shr unit (bit_shift e n b w)) (2 ^ w - 1)))
read_field mem p (named_bytes_field t o n) = read_bytes mem (p + o) n >>= λ bs. some (blob bs)

-- `struct_view<Spec>(p)("tag"_fld)` of a scalar or bit field. An unknown tag does not compile in the
-- source; here it is `none`, like a fault.
abbrev pub find_tag : String → Spec → Option Field
find_tag t [] = none
find_tag t (f ∷ fs) = if str_eq (tag f) t then some f else find_tag t fs

abbrev pub as_number : Value → Option ℕ
as_number (number n) = some n
as_number (blob bs) = none

unfoldable pub view : List ℕ → ℕ → Spec → String → Option ℕ
view mem p spec t = find_tag t spec >>= λ f. read_field mem p f >>= as_number
