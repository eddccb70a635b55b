-- ===== src/Lldp/Rows.antt =====
-- examples/lldp/lldp.hpp: the row of a TLV that the cursor delivers.
use nanotins.Shared.{ℕ, ◌+◌, ◌-◌, ◌≡◌, ◌≢◌, refl}
use nanotins.Shared.{List, [], ◌∷◌, Option, none, some, ◌==◌, replicate}
use nanotins.Shared.Bits.{u16, u32}
use nanotins.WireSpec.{read_bytes}
use nanotins.WireSpec.Bounds.{read_bytes-IsRead}
use nanotins.Lldp.Wire.Rows.{value_head_for, head-read_bytes}
use nanotins.Lldp.{
  LldpRecord, LldpCursor, next, Typed, decode_typed, value_head_of, subtype_of, lldp_row,
  value_offset_of, LldpTlvRow,
}
use nanotins.Lldp.Cursor.{ValueInside}
use nanotins.Lldp.Sparse.{Gives, Gives->>=, Gives-then, Gives-if, IsSparse, decode_typed-IsSparse}

-- The typed columns of a row.
abbrev pub typed_part : LldpTlvRow → Typed
typed_part row = record {
  ttl_seconds = row.ttl_seconds;
  caps_supported = row.caps_supported;
  caps_enabled = row.caps_enabled;
  mgmt_addr_subtype = row.mgmt_addr_subtype;
  mgmt_iface_subtype = row.mgmt_iface_subtype;
  mgmt_iface_number = row.mgmt_iface_number;
}

-- The offset of a value from the region's start `p`, 0 for a null pointer.
abbrev pub IsOffset : (p : ℕ) → Option ℕ → ℕ → Type 0
IsOffset p none off = off ≡ 0
IsOffset p (some v) off = off ≡ u16 (v - p)

-- The first 32 bytes of a value of `len` bytes, with zeros behind a shorter one.
abbrev pub IsHead : List ℕ → Option ℕ → (len : ℕ) → List ℕ → Type 0
IsHead mem none len head = head ≡ replicate 32 0
IsHead mem (some v) len head =
    (bs : List ℕ) × (read_bytes mem v len ≡ some bs) × (head ≡ value_head_for bs)

-- The row of a record: of the packet and rule, at its index, of a TLV that does not end the frame.
pub record IsRow (mem : List ℕ) (pid rule_id p idx : ℕ) (r : LldpRecord) (row : LldpTlvRow)
    : Type 0 where
  pub packet : row.packet_id ≡ pid
  pub rule : row.rule_id ≡ rule_id
  pub index : row.tlv_index ≡ idx
  pub type : row.tlv_type ≡ r.type
  pub real : row.tlv_type ≢ 0
  pub len : row.tlv_length ≡ r.len
  pub offset : IsOffset p r.value row.value_offset
  pub head : IsHead mem r.value r.len row.value_head
  pub sparse : IsSparse row.tlv_type (typed_part row)

-- One row for each record, in order, with indexes from `idx` on.
abbrev pub AreRows : List ℕ → (pid rule_id p idx : ℕ) → List LldpRecord → List LldpTlvRow → Type 0
AreRows mem pid rule_id p idx [] [] = Unit
AreRows mem pid rule_id p idx [] (row ∷ rows) = ⊥
AreRows mem pid rule_id p idx (r ∷ rs) [] = ⊥
AreRows mem pid rule_id p idx (r ∷ rs) (row ∷ rows) =
    IsRow mem pid rule_id p idx r row × AreRows mem pid rule_id p (u32 (idx + 1)) rs rows

-- The records that a cursor delivers until its `next` is false.
abbrev pub Delivers : List ℕ → LldpCursor → List LldpRecord → Type 0
Delivers mem c [] = next mem c ≡ some none
Delivers mem c (r ∷ rs) =
    (c' : LldpCursor) × (next mem c ≡ some (some (r, c'))) × Delivers mem c' rs

value_head_of-IsHead :
    (mem : List ℕ) (r : LldpRecord) (o : Option ℕ)
    → r.value ≡ o
    → ValueInside mem r o
    → Gives (IsHead mem o r.len) (value_head_of mem r)
value_head_of-IsHead mem r none e h =
    rw e (Gives-if (λ head. head ≡ replicate 32 0) (r.len == 0) _ _ (λ z. refl) (λ nz. tt))
value_head_of-IsHead mem r (some v) e h =
    let (bs, read) = read_bytes-IsRead mem v r.len h in
    let made : value_head_of mem r ≡ some (value_head_for bs) =
      rw e (head-read_bytes mem r.type v r.len bs read) in
    rw made (bs, read, refl)

value_offset_of-IsOffset :
    (p : ℕ) (r : LldpRecord) (o : Option ℕ) → r.value ≡ o → IsOffset p o (value_offset_of p r)
value_offset_of-IsOffset p r none e = rw e refl
value_offset_of-IsOffset p r (some v) e = rw e refl

pub lldp_row-IsRow :
    (mem : List ℕ) (pid rule_id p idx : ℕ) (r : LldpRecord)
    → r.type ≢ 0
    → ValueInside mem r r.value
    → Gives (IsRow mem pid rule_id p idx r) (lldp_row mem pid rule_id p idx r)
unfolding lldp_row
lldp_row-IsRow mem pid rule_id p idx r real inside =
    let P = IsRow mem pid rule_id p idx r in
    Gives->>= P (subtype_of mem r) _ (λ subtype.
      Gives-then (IsHead mem r.value r.len) P (value_head_of mem r) _
        (value_head_of-IsHead mem r r.value refl inside)
        (λ head first.
          Gives-then (IsSparse r.type) P (decode_typed mem r) _
            (decode_typed-IsSparse mem r.len r.type r.value)
            (λ t sparse. record {
              packet = refl;
              rule = refl;
              index = refl;
              type = refl;
              real = real;
              len = refl;
              offset = value_offset_of-IsOffset p r r.value refl;
              head = first;
              sparse = sparse;
            })))
