-- ===== src/Lldp/Wire/Rows.antt =====
-- examples/lldp/lldp.hpp: the row of a TLV on the wire is the one that is expected of its content.
use nanotins.Shared.{ℕ, zero, suc, ◌+◌, ◌-◌, ◌≤◌, ◌≡◌, refl, sym, ap, arith}
use nanotins.Shared.{
  List, [], ◌∷◌, ◌++◌, length, length-append, take, Option, none, some, ◌==◌, replicate,
}
use nanotins.Shared.{ltb, leb, true, false, Bool-cases, inl, inr}
use nanotins.Shared.Bits.{u16}
use nanotins.WireSpec.{read_bytes}
use nanotins.WireSpec.Bounds.{length-read_bytes}
use nanotins.Shared.{>>=-eq-some}
use nanotins.Shared.Buffer.{byte_at}
use nanotins.WireSpec.BigEndian.{be32, Holds}
use nanotins.Lldp.{
  LldpRecord, LldpTlvRow, decode_typed, value_head_of, subtype_of, value_offset_of, lldp_row,
  head_size, lldp_ttl, lldp_sys_caps, lldp_mgmt_addr, lldp_chassis_id, lldp_port_id,
}
use nanotins.Lldp.Wire.{
  LldpTlv, type_of, value_of, Fits, subtype_for, typed_for, typed_ttl-Holds, typed_caps-Holds,
  typed_mgmt-Holds,
}

-- The first 32 bytes of a value, or all of it and zeros.
abbrev pub value_head_for : List ℕ → List ℕ
value_head_for bs = take 32 bs ++ replicate (32 - length bs) 0

-- A value at offset `v`: a null pointer where it is empty.
abbrev pub pointer : ℕ → List ℕ → Option ℕ
pointer v [] = none
pointer v (b ∷ bs) = some v

abbrev pub offset_for : ℕ → List ℕ → ℕ
offset_for n [] = 0
offset_for n (b ∷ bs) = u16 n

-- The record that the cursor delivers of a TLV whose value starts at `v`.
abbrev pub record_for : ℕ → LldpTlv → LldpRecord
record_for v t = record {
  type = type_of t;
  len = length (value_of t);
  value = pointer v (value_of t);
}

-- The row that is expected of a TLV whose value starts at offset `n` of the region.
abbrev pub row_for : (pid rule_id idx n : ℕ) → LldpTlv → LldpTlvRow
row_for pid rule_id idx n t = record {
  packet_id = pid;
  rule_id = rule_id;
  tlv_index = idx;
  tlv_type = type_of t;
  tlv_length = length (value_of t);
  subtype = subtype_for t;
  value_offset = offset_for n (value_of t);
  ttl_seconds = (typed_for t).ttl_seconds;
  caps_supported = (typed_for t).caps_supported;
  caps_enabled = (typed_for t).caps_enabled;
  mgmt_addr_subtype = (typed_for t).mgmt_addr_subtype;
  mgmt_iface_subtype = (typed_for t).mgmt_iface_subtype;
  mgmt_iface_number = (typed_for t).mgmt_iface_number;
  value_head = value_head_for (value_of t);
}

read_bytes-Holds :
    (mem : List ℕ) (at n : ℕ) (bs : List ℕ)
    → n ≤ length bs
    → Holds mem at bs
    → read_bytes mem at n ≡ some (take n bs)
unfolding read_bytes
read_bytes-Holds mem at zero bs few h = refl
read_bytes-Holds mem at (suc n) [] few h = absurd (omega arith)
read_bytes-Holds mem at (suc n) (b ∷ bs) few (e, h) =
    rw e (rw (read_bytes-Holds mem (at + 1) n bs (omega arith) h) refl)

take-all : (n k : ℕ) (bs : List ℕ) → length bs ≤ n → length bs ≡ k → take n bs ≡ take k bs
take-all zero k [] few e = rw (sym e) refl
take-all (suc n) k [] few e = rw (sym e) refl
take-all zero k (b ∷ bs) few e = absurd (omega arith)
take-all (suc n) zero (b ∷ bs) few e = absurd (omega arith)
take-all (suc n) (suc k) (b ∷ bs) few e =
    ap (λ t. b ∷ t) (take-all n k bs (omega arith) (omega arith))

-- The head of a value that is read whole, from a pointer that is not null.
head-Holds :
    (mem : List ℕ) (type v len : ℕ) (bs : List ℕ)
    → len ≡ length bs
    → Holds mem v bs
    → value_head_of mem (record { type = type; len = len; value = some v })
      ≡ some (value_head_for bs)
head-Holds mem type v len bs e h =
    rw (read_bytes-Holds mem v (head_size len) bs (ground arith) h)
      (elim (Bool-cases (ltb len 32)) [
        | inl short ↦ rw short (rw (sym (take-all 32 len bs (ground arith) (sym e))) (rw e refl))
        | inr long ↦
            let none_left : 32 - length bs ≡ 32 - 32 = ground arith in rw long (rw none_left refl)
      ])

Holds-read_bytes :
    (mem : List ℕ) (at n : ℕ) (bs : List ℕ) → read_bytes mem at n ≡ some bs → Holds mem at bs
unfolding read_bytes
Holds-read_bytes mem at zero [] h = tt
Holds-read_bytes mem at zero (b ∷ bs) h = cc
Holds-read_bytes mem at (suc n) bs h =
    let (b, e, h1) = >>=-eq-some (byte_at mem at) _ h in
    let (rest, e', h2) = >>=-eq-some (read_bytes mem (at + 1) n) (λ bs. some (b ∷ bs)) h1 in
    let split : b ∷ rest ≡ bs = cc h2 in rw⁻¹ split (e, Holds-read_bytes mem (at + 1) n rest e')

pub head-read_bytes :
    (mem : List ℕ) (type v len : ℕ) (bs : List ℕ)
    → read_bytes mem v len ≡ some bs
    → value_head_of mem (record { type = type; len = len; value = some v })
      ≡ some (value_head_for bs)
head-read_bytes mem type v len bs e =
    head-Holds mem type v len bs (sym (length-read_bytes mem v len bs e))
      (Holds-read_bytes mem v len bs e)

value_head_of-Holds :
    (mem : List ℕ) (type v len : ℕ) (bs : List ℕ)
    → len ≡ length bs
    → Holds mem v bs
    → value_head_of mem (record { type = type; len = len; value = pointer v bs })
      ≡ some (value_head_for bs)
value_head_of-Holds mem type v len [] e h =
    let empty : (len == 0) ≡ true = ground arith in rw empty refl
value_head_of-Holds mem type v len (b ∷ bs) e h = head-Holds mem type v len (b ∷ bs) e h

subtype_of-Holds :
    (mem : List ℕ) (v len : ℕ) (t : LldpTlv)
    → len ≡ length (value_of t)
    → Fits t
    → Holds mem v (value_of t)
    → subtype_of mem (record { type = type_of t; len = len; value = pointer v (value_of t) })
      ≡ some (subtype_for t)
subtype_of-Holds mem v len (LldpTlv.chassis_id subtype id) e fits h =
    let room : leb 1 len ≡ true = ground arith in rw room h.0
subtype_of-Holds mem v len (LldpTlv.port_id subtype id) e fits h =
    let room : leb 1 len ≡ true = ground arith in rw room h.0
subtype_of-Holds mem v len (LldpTlv.ttl seconds rest) e fits h = refl
subtype_of-Holds mem v len (LldpTlv.sys_caps supported enabled rest) e fits h = refl
subtype_of-Holds mem v len (LldpTlv.mgmt_addr family addr iface number oid) e fits h = refl
subtype_of-Holds mem v len (LldpTlv.other type []) e fits h = refl
subtype_of-Holds mem v len (LldpTlv.other type (b ∷ bs)) e (small, n0, n1, n2, n3, n7, n8) h =
    let c : (type == lldp_chassis_id) ≡ false = ground arith in
    let p : (type == lldp_port_id) ≡ false = ground arith in rw c (rw p refl)

decode_typed-Holds :
    (mem : List ℕ) (v len : ℕ) (t : LldpTlv)
    → len ≡ length (value_of t)
    → Fits t
    → Holds mem v (value_of t)
    → decode_typed mem (record { type = type_of t; len = len; value = pointer v (value_of t) })
      ≡ some (typed_for t)
unfolding decode_typed
decode_typed-Holds mem v len (LldpTlv.chassis_id subtype id) e fits h = refl
decode_typed-Holds mem v len (LldpTlv.port_id subtype id) e fits h = refl
decode_typed-Holds mem v len (LldpTlv.ttl seconds rest) e fits h =
    typed_ttl-Holds mem v seconds rest len fits h (omega arith)
decode_typed-Holds mem v len (LldpTlv.sys_caps supported enabled rest) e (fits_s, fits_e) h =
    typed_caps-Holds mem v supported enabled rest len fits_s fits_e h (omega arith)
decode_typed-Holds mem v len (LldpTlv.mgmt_addr family addr iface number oid) e fits h =
    typed_mgmt-Holds mem v family addr iface number oid len fits h
      (omega (arith, length-append addr (iface ∷ (be32 number ++ oid))))
decode_typed-Holds mem v len (LldpTlv.other type []) e fits h = refl
decode_typed-Holds mem v len (LldpTlv.other type (b ∷ bs)) e (small, n0, n1, n2, n3, n7, n8) h =
    let t : (type == lldp_ttl) ≡ false = ground arith in
    let c : (type == lldp_sys_caps) ≡ false = ground arith in
    let m : (type == lldp_mgmt_addr) ≡ false = ground arith in rw t (rw c (rw m refl))

value_offset_of-pointer :
    (p v type len : ℕ) (bs : List ℕ)
    → value_offset_of p (record { type = type; len = len; value = pointer v bs })
      ≡ offset_for (v - p) bs
value_offset_of-pointer p v type len [] = refl
value_offset_of-pointer p v type len (b ∷ bs) = refl

pub lldp_row-Holds :
    (mem : List ℕ) (pid rule_id p v idx : ℕ) (t : LldpTlv)
    → Fits t
    → Holds mem v (value_of t)
    → lldp_row mem pid rule_id p idx (record_for v t) ≡ some (row_for pid rule_id idx (v - p) t)
unfolding lldp_row
lldp_row-Holds mem pid rule_id p v idx t fits h = rw (subtype_of-Holds mem v _ t refl fits h) (
    rw (value_head_of-Holds mem (type_of t) v _ (value_of t) refl h) (
      rw (decode_typed-Holds mem v _ t refl fits h)
        (rw (value_offset_of-pointer p v (type_of t) (length (value_of t)) (value_of t)) refl)))
