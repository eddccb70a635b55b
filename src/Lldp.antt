-- ===== src/Lldp.antt =====
-- examples/lldp/lldp.hpp: a parser of LLDP frames as a Kind of the palette of dpar_palette.hpp. A
-- pointer is an offset into the buffer `mem`; faults and fuel are as in Tlv.
pub mod Cursor
pub mod Sparse
pub mod Rows
pub mod Kinds
pub mod Wire
pub mod RoundTrip
pub mod Ndjson
use nanotins.Shared.{
  ℕ, zero, suc, ◌+◌, ◌-◌, List, [], ◌∷◌, ◌++◌, length, replicate, Option, none, some, Bool,
}
use nanotins.Shared.{bit_and, bit_or, ltb, leb, ◌==◌, ◌&&◌, ◌||◌, if◌then◌else◌, ◌>>=◌}
use nanotins.Shared.Bits.{u16, u32, u64, shl, shr}
use nanotins.Shared.Buffer.{byte_at}
use nanotins.WireSpec.{read_bytes}
use nanotins.SomeipTlv.{rd_be16, rd_be32}
use nanotins.Dpar.Texts.{codes}
use nanotins.Dpar.Palette.{Kind, emit_loop}

abbrev pub lldp_end : ℕ
lldp_end = 0

abbrev pub lldp_chassis_id : ℕ
lldp_chassis_id = 1

abbrev pub lldp_port_id : ℕ
lldp_port_id = 2

abbrev pub lldp_ttl : ℕ
lldp_ttl = 3

abbrev pub lldp_sys_caps : ℕ
lldp_sys_caps = 7

abbrev pub lldp_mgmt_addr : ℕ
lldp_mgmt_addr = 8

pub record LldpRecord : Type 0 where
  pub type : ℕ
  pub len : ℕ
  pub value : Option ℕ

pub record LldpCursor : Type 0 where
  pub p : Option ℕ
  pub end : ℕ

abbrev pub Next : Type 0
Next = Option (Option (LldpRecord × LldpCursor))

-- The packed header, and the value behind it.
abbrev pub packed_tlv : (p end hdr : ℕ) → Option (LldpRecord × LldpCursor)
packed_tlv p end hdr =
    if shr hdr 9 == lldp_end
    then none
    else if ltb end (p + 2 + bit_and hdr 0x01FF)
    then none
    else some (
      record {
        type = shr hdr 9;
        len = bit_and hdr 0x01FF;
        value = if bit_and hdr 0x01FF == 0 then none else some (p + 2);
      },
      record { p = some (p + 2 + bit_and hdr 0x01FF); end = end },
    )

unfoldable pub next_at : List ℕ → (p end : ℕ) → Next
next_at mem p end =
    if ltb end (p + 2) then some none else (rd_be16 mem p >>= λ hdr. some (packed_tlv p end hdr))

unfoldable pub next : List ℕ → LldpCursor → Next
next mem c = elim c.p [ none ↦ some none | some p ↦ next_at mem p c.end ]

pub record LldpTlvRow : Type 0 where
  pub packet_id : ℕ
  pub rule_id : ℕ
  pub tlv_index : ℕ
  pub tlv_type : ℕ
  pub tlv_length : ℕ
  pub subtype : ℕ
  pub value_offset : ℕ
  pub ttl_seconds : ℕ
  pub caps_supported : ℕ
  pub caps_enabled : ℕ
  pub mgmt_addr_subtype : ℕ
  pub mgmt_iface_subtype : ℕ
  pub mgmt_iface_number : ℕ
  pub value_head : List ℕ

-- The columns that decode_typed writes.
pub record Typed : Type 0 where
  pub ttl_seconds : ℕ
  pub caps_supported : ℕ
  pub caps_enabled : ℕ
  pub mgmt_addr_subtype : ℕ
  pub mgmt_iface_subtype : ℕ
  pub mgmt_iface_number : ℕ

abbrev pub untyped : Typed
untyped = record {
  ttl_seconds = 0;
  caps_supported = 0;
  caps_enabled = 0;
  mgmt_addr_subtype = 0;
  mgmt_iface_subtype = 0;
  mgmt_iface_number = 0;
}

abbrev pub typed_ttl : List ℕ → (v len : ℕ) → Option Typed
typed_ttl mem v len =
    if leb 2 len
    then (rd_be16 mem v >>= λ t. some (record untyped { ttl_seconds = t }))
    else some untyped

abbrev pub typed_caps : List ℕ → (v len : ℕ) → Option Typed
typed_caps mem v len =
    if leb 4 len
    then (rd_be16 mem v >>= λ s.
        rd_be16 mem (v + 2) >>= λ e. some (record untyped { caps_supported = s; caps_enabled = e }))
    else some untyped

-- A read that is made if there is room for it, and else 0.
abbrev pub read_if : Bool → Option ℕ → Option ℕ
read_if b read = if b then read else some 0

abbrev pub typed_mgmt : List ℕ → (v len : ℕ) → Option Typed
typed_mgmt mem v len =
    if ltb len 1
    then some untyped
    else (byte_at mem v >>= λ n.
        if ltb n 1 || ltb len (1 + n)
        then some untyped
        else (byte_at mem (v + 1) >>= λ family.
            read_if (leb (1 + n + 1) len) (byte_at mem (v + (1 + n))) >>= λ iface.
            read_if (leb (1 + n + 1 + 4) len) (rd_be32 mem (v + (1 + n) + 1)) >>= λ number.
            some (record untyped {
              mgmt_addr_subtype = family;
              mgmt_iface_subtype = iface;
              mgmt_iface_number = number;
            })))

unfoldable pub decode_typed : List ℕ → LldpRecord → Option Typed
decode_typed mem r = elim r.value [
  | none ↦ some untyped
  | some v ↦
      if r.type == lldp_ttl
      then typed_ttl mem v r.len
      else if r.type == lldp_sys_caps
      then typed_caps mem v r.len
      else if r.type == lldp_mgmt_addr
      then typed_mgmt mem v r.len
      else some untyped
]

abbrev pub head_size : ℕ → ℕ
head_size len = if ltb len 32 then len else 32

-- The first bytes of the value: the loop over them reads none where the length is 0.
abbrev pub value_head_of : List ℕ → LldpRecord → Option (List ℕ)
value_head_of mem r = elim r.value [
  | none ↦ if r.len == 0 then some (replicate 32 0) else none
  | some v ↦
      read_bytes mem v (head_size r.len) >>= λ bs. some (bs ++ replicate (32 - head_size r.len) 0)
]

abbrev pub subtype_of : List ℕ → LldpRecord → Option ℕ
subtype_of mem r = elim r.value [
  | none ↦ some 0
  | some v ↦
      if (r.type == lldp_chassis_id || r.type == lldp_port_id) && leb 1 r.len
      then byte_at mem v
      else some 0
]

abbrev pub value_offset_of : ℕ → LldpRecord → ℕ
value_offset_of p r = elim r.value [ none ↦ 0 | some v ↦ u16 (v - p) ]

unfoldable pub lldp_row : List ℕ → (pid rule_id p : ℕ) → (idx : ℕ) → LldpRecord → Option LldpTlvRow
lldp_row mem pid rule_id p idx r = do
  subtype ← subtype_of mem r
  head ← value_head_of mem r
  t ← decode_typed mem r
  some (record {
    packet_id = pid;
    rule_id = rule_id;
    tlv_index = idx;
    tlv_type = r.type;
    tlv_length = r.len;
    subtype = subtype;
    value_offset = value_offset_of p r;
    ttl_seconds = t.ttl_seconds;
    caps_supported = t.caps_supported;
    caps_enabled = t.caps_enabled;
    mgmt_addr_subtype = t.mgmt_addr_subtype;
    mgmt_iface_subtype = t.mgmt_iface_subtype;
    mgmt_iface_number = t.mgmt_iface_number;
    value_head = head;
  })

unfoldable pub emit_lldp :
    List ℕ → (pid rule_id p end : ℕ) → List LldpTlvRow → Option (List LldpTlvRow × ℕ)
emit_lldp mem pid rule_id p end out =
    emit_loop (suc (end - p)) (next mem) (lldp_row mem pid rule_id p)
      (record { p = some p; end = end }) 0 0 out

abbrev pub lldp_kind : Kind
lldp_kind = record { Row = LldpTlvRow; name = codes "lldp"; emit = emit_lldp }

abbrev pub lldp_palette : List Kind
lldp_palette = lldp_kind ∷ []
