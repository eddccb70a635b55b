-- ===== src/Dpar.antt =====
-- nanotins/include/nanotins/dpar.hpp, the rule engine on L2L3Graph: its data, the runtime field
-- reader and the comparators. The used slots of a rule's array of predicates are a list, so `n_preds`
-- is its length.
pub mod Texts
pub mod Catalog
pub mod Match
pub mod Reader
pub mod Fires
pub mod Seen
pub mod Safety
pub mod Stats
pub mod Rounds
pub mod Engine
pub mod Compile
pub mod Palette
use nanotins.Shared.{ℕ, ◌+◌, ◌-◌, ◌*◌, ◌%◌, ◌^◌, bit_and, List, Option, some, Bool, true, false}
use nanotins.Shared.{ltb, leb, if◌then◌else◌, ◌>>=◌, ◌==◌}
use nanotins.Shared.Bits.{shr, u64}
use nanotins.WireSpec.{big_loop, little_loop}
use Prim.Native.String.{String}

pub data CmpOp : Type 0 where
  eq lt gt le ge : CmpOp

pub data RegionKind : Type 0 where
  eth_payload vlan_payload udp_payload tcp_payload someip_payload : RegionKind

pub record FieldRef : Type 0 where
  pub node_id : ℕ
  pub offset : ℕ
  pub byte_width : ℕ
  pub big_endian : Bool
  pub is_bitfield : Bool
  pub bit_offset : ℕ
  pub bit_width : ℕ

pub record Predicate : Type 0 where
  pub field : FieldRef
  pub op : CmpOp
  pub operand : ℕ

pub record RegionSel : Type 0 where
  pub kind : RegionKind
  pub anchor_node_id : ℕ

abbrev pub max_predicates : ℕ
max_predicates = 6

pub record Rule : Type 0 where
  pub preds : List Predicate
  pub parser_kind : ℕ
  pub region : RegionSel
  pub rule_id : ℕ
  pub priority : ℕ
  pub name : List ℕ

-- The shift of a bit field, a difference of size_t.
abbrev pub runtime_shift : FieldRef → ℕ
runtime_shift f =
    if f.big_endian
    then u64 (f.byte_width * 8 + 2 ^ 64 - f.bit_width + 2 ^ 64 - f.bit_offset)
    else f.bit_offset

abbrev pub runtime_mask : FieldRef → ℕ
runtime_mask f = if leb 64 f.bit_width then 2 ^ 64 - 1 else 2 ^ f.bit_width - 1

abbrev pub read_word : List ℕ → (base : ℕ) → FieldRef → Option ℕ
read_word mem base f =
    if f.big_endian
    then big_loop mem (base + f.offset) f.byte_width 0
    else little_loop mem (base + f.offset) f.byte_width 0

unfoldable pub read_field_runtime : List ℕ → (base : ℕ) → FieldRef → Option ℕ
read_field_runtime mem base f = read_word mem base f >>= λ v.
    some (if f.is_bitfield then bit_and (shr v (runtime_shift f)) (runtime_mask f) else v)

abbrev pub cmp_apply : ℕ → CmpOp → ℕ → Bool
cmp_apply v CmpOp.eq o = v == o
cmp_apply v CmpOp.lt o = ltb v o
cmp_apply v CmpOp.gt o = ltb o v
cmp_apply v CmpOp.le o = leb v o
cmp_apply v CmpOp.ge o = leb o v
