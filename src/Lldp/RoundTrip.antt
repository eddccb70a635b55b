-- ===== src/Lldp/RoundTrip.antt =====
-- examples/lldp/lldp.hpp: LldpKind reads back the TLVs that were laid out on the wire.
use nanotins.Shared.{
  ℕ, zero, suc, ◌+◌, ◌-◌, ◌*◌, ◌%◌, ◌^◌, ◌≤◌, ◌<◌, ◌≡◌, ◌≢◌, refl, sym, ap, ◌∙◌, arith, subst,
}
use nanotins.Shared.{List, [], ◌∷◌, ◌++◌, length, length-append, All, none, some, ◌==◌}
use nanotins.Shared.{ltb, true, false, if◌then◌else◌, bit_and}
use nanotins.Shared.Bits.{u32, u64, shr, and_mask}
use nanotins.WireSpec.BigEndian.{be16, Holds, Holds-append, Holds-drop, Holds-take}
use nanotins.Bulk.{push}
use nanotins.Bulk.Layout.{push-append}
use mathlib.Core.List.{append_assoc, append-nil}
use nanotins.Dpar.Palette.{emit_loop}
use nanotins.Lldp.{LldpTlvRow, packed_tlv, next, next_at, lldp_row, emit_lldp}
use nanotins.Lldp.Wire.{LldpTlv, type_of, value_of, Fits, rd_be16-Holds}
use nanotins.Lldp.Wire.Rows.{pointer, record_for, row_for, lldp_row-Holds}

-- The header packs the type in 7 bits and the length in 9. The End TLV is two zeros.
abbrev pub encode_tlv : LldpTlv → List ℕ
encode_tlv t = be16 (type_of t * 512 + length (value_of t)) ++ value_of t

abbrev pub encode_frame : List LldpTlv → List ℕ
encode_frame [] = 0 ∷ 0 ∷ []
encode_frame (t ∷ ts) = encode_tlv t ++ encode_frame ts

-- A TLV whose content fits its fields, and whose length fits 9 bits.
abbrev pub IsEncodable : LldpTlv → Type 0
IsEncodable t = Fits t × (length (value_of t) < 512)

-- The rows that are expected of TLVs laid out from offset `n` of the region on.
abbrev pub rows_for : (pid rule_id idx n : ℕ) → List LldpTlv → List LldpTlvRow
rows_for pid rule_id idx n [] = []
rows_for pid rule_id idx n (t ∷ ts) =
    row_for pid rule_id idx (n + 2) t
    ∷ rows_for pid rule_id (u32 (idx + 1)) (n + 2 + length (value_of t)) ts

type_of-bounds : (t : LldpTlv) → Fits t → (type_of t ≢ 0) × (type_of t < 128)
type_of-bounds (LldpTlv.chassis_id subtype id) h = ((λ e. omega arith), omega arith)
type_of-bounds (LldpTlv.port_id subtype id) h = ((λ e. omega arith), omega arith)
type_of-bounds (LldpTlv.ttl seconds rest) h = ((λ e. omega arith), omega arith)
type_of-bounds (LldpTlv.sys_caps supported enabled rest) h = ((λ e. omega arith), omega arith)
type_of-bounds (LldpTlv.mgmt_addr family addr iface number oid) h =
    ((λ e. omega arith), omega arith)
type_of-bounds (LldpTlv.other type value) (small, n0, n1, n2, n3, n7, n8) = (n0, small)

pointer-if :
    (v len : ℕ) (bs : List ℕ) → len ≡ length bs → (if len == 0 then none else some v) ≡ pointer v bs
pointer-if v len [] e = let empty : (len == 0) ≡ true = ground arith in rw empty refl
pointer-if v len (b ∷ bs) e = let full : (len == 0) ≡ false = ground arith in rw full refl

packed_tlv-fields :
    (p end type len hdr : ℕ) (bs : List ℕ)
    → type ≢ 0
    → len < 512
    → hdr ≡ type * 512 + len
    → len ≡ length bs
    → p + 2 + len ≤ end
    → packed_tlv p end hdr
      ≡ some (
        record { type = type; len = len; value = pointer (p + 2) bs },
        record { p = some (p + 2 + len); end = end },
      )
packed_tlv-fields p end type len hdr bs real short packed wide inside =
    let high : shr hdr 9 ≡ type = omega arith in
    let low : bit_and hdr 0x01FF ≡ len = and_mask 9 hdr ∙ omega arith in
    let not_end : (type == 0) ≡ false = ground arith in
    let fits : ltb end (p + 2 + len) ≡ false = ground arith in
    rw high (rw low (rw not_end (rw fits (rw (pointer-if (p + 2) len bs wide) refl))))

next-encode_tlv :
    (mem : List ℕ) (p end : ℕ) (t : LldpTlv)
    → IsEncodable t
    → Holds mem p (encode_tlv t)
    → p + 2 + length (value_of t) ≤ end
    → next mem (record { p = some p; end = end })
      ≡ some (
          some (record_for (p + 2) t, record { p = some (p + 2 + length (value_of t)); end = end }))
unfolding next next_at
next-encode_tlv mem p end t (fits, short) h inside =
    let (real, small) = type_of-bounds t fits in
    let hdr = type_of t * 512 + length (value_of t) in
    let room : ltb end (p + 2) ≡ false = ground arith in
    let read = rd_be16-Holds mem p hdr (omega arith) (Holds-take mem p (be16 hdr) (value_of t) h) in
    rw room (
      rw read (
        ap some (
          packed_tlv-fields p end (type_of t) (length (value_of t)) hdr (value_of t) real short refl
            refl inside)))

next-end :
    (mem : List ℕ) (p end : ℕ)
    → Holds mem p (0 ∷ 0 ∷ [])
    → p + 2 ≤ end
    → next mem (record { p = some p; end = end }) ≡ some none
unfolding next next_at
next-end mem p end h inside =
    let room : ltb end (p + 2) ≡ false = ground arith in
    rw room (rw (rd_be16-Holds mem p 0 (omega arith) h) refl)

emit_loop-encode_frame :
    (ts : List LldpTlv) (mem : List ℕ) (pid rule_id p q end fuel idx n : ℕ) (out : List LldpTlvRow)
    → All IsEncodable ts
    → Holds mem q (encode_frame ts)
    → p ≤ q
    → q + length (encode_frame ts) ≤ end
    → length (encode_frame ts) ≤ fuel
    → n < 2 ^ 64
    → emit_loop fuel
        (next mem)
        (lldp_row mem pid rule_id p)
        (record { p = some q; end = end })
        idx
        n
        out
      ≡ some (out ++ rows_for pid rule_id idx (q - p) ts, (n + length ts) % 2 ^ 64)
unfolding emit_loop
emit_loop-encode_frame [] mem pid rule_id p q end zero idx n out ok h order inside few small =
    absurd (omega arith)
emit_loop-encode_frame [] mem pid rule_id p q end (suc fuel) idx n out ok h order inside few small =
    let count : n ≡ (n + 0) % 2 ^ 64 = omega arith in
    rw (next-end mem q end h inside) (λ i. some (sym (append-nil out) i, count i))
emit_loop-encode_frame (t ∷ ts) mem pid rule_id p q end zero idx n out ok h order inside few small =
    absurd (omega arith)
emit_loop-encode_frame (t ∷ ts) mem pid rule_id p q end (suc fuel) idx n out (ok, oks) h order
      inside few small =
    let len = length (value_of t) in
    let row = row_for pid rule_id idx (q - p + 2) t in
    let size : length (encode_frame (t ∷ ts)) ≡ 2 + len + length (encode_frame ts) =
      omega (arith, length-append (value_of t) (encode_frame ts)) in
    let tlv = Holds-take mem q (encode_tlv t) (encode_frame ts) h in
    let value : Holds mem (q + 2) (value_of t) =
      Holds-drop mem q (be16 (type_of t * 512 + len)) (value_of t) tlv in
    let rest : Holds mem (q + 2 + len) (encode_frame ts) =
      subst (λ a. Holds mem a (encode_frame ts)) (omega arith)
        (Holds-drop mem q (encode_tlv t) (encode_frame ts) h) in
    let place : q + 2 - p ≡ q - p + 2 = omega arith in
    let place' : q + 2 + len - p ≡ q - p + 2 + len = omega arith in
    let made : lldp_row mem pid rule_id p idx (record_for (q + 2) t) ≡ some row =
      lldp_row-Holds mem pid rule_id p (q + 2) idx t ok.0 value
      ∙ ap (λ m. some (row_for pid rule_id idx m t)) place in
    let more =
      emit_loop-encode_frame ts mem pid rule_id p (q + 2 + len) end fuel (u32 (idx + 1))
        (u64 (n + 1)) (push out row) oks rest (omega arith) (omega arith) (omega arith)
        (omega arith) in
    let count : (u64 (n + 1) + length ts) % 2 ^ 64 ≡ (n + suc (length ts)) % 2 ^ 64 = omega arith in
    let others = λ (m : ℕ). rows_for pid rule_id (u32 (idx + 1)) m ts in
    rw (next-encode_tlv mem q end t ok tlv (omega arith)) (
      rw made (
        more ∙ λ i. some (
          (ap (λ o. o ++ others (q + 2 + len - p)) (push-append out row)
                ∙ append_assoc out (row ∷ []) (others (q + 2 + len - p))
                ∙ ap (λ m. out ++ (row ∷ others m)) place')
              i,
          count i,
        )))

-- Round trip: wherever the TLVs of a frame and the End TLV are laid out in a region, whatever lies
-- behind them, LldpKind over the region appends exactly one row for each TLV, in order, and returns
-- their number, modulo 2^64. A row has the packet's and the rule's id, the TLV's index, modulo 2^32,
-- its type and length, the offset of its value from the region's start, modulo 2^16, or 0 for an
-- empty one, the value's first 32 bytes, with zeros behind a shorter one, the subtype of a chassis or
-- port id, and the seconds, capabilities or management address that were laid out, with 0 in the
-- columns of other types. The TLVs have types below 128 other than End, values shorter than 512 bytes
-- and contents that fit their fields.
pub emit_lldp-encode_frame :
    (front back : List ℕ) (ts : List LldpTlv) (pid rule_id end : ℕ) (out : List LldpTlvRow)
    → All IsEncodable ts
    → length front + length (encode_frame ts) ≤ end
    → emit_lldp (front ++ (encode_frame ts ++ back)) pid rule_id (length front) end out
      ≡ some (out ++ rows_for pid rule_id 0 0 ts, length ts % 2 ^ 64)
unfolding emit_lldp
emit_lldp-encode_frame front back ts pid rule_id end out ok inside =
    let mem = front ++ (encode_frame ts ++ back) in
    let start : length front - length front ≡ 0 = omega arith in
    emit_loop-encode_frame ts mem pid rule_id (length front) (length front) end
      (suc (end - length front)) 0 0 out ok (Holds-append front (encode_frame ts) back _ refl)
      (omega arith) inside (omega arith) (omega arith)
    ∙ λ i. some (out ++ rows_for pid rule_id 0 (start i) ts, count (length ts) i)
  where
    count : (k : ℕ) → (0 + k) % 2 ^ 64 ≡ k % 2 ^ 64
    count k = omega arith
