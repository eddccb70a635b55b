-- ===== src/Lldp/Wire.antt =====
-- examples/lldp/lldp.hpp: LLDP TLVs as the standard defines them, their wire format, and the rows
-- that are expected of them.
pub mod Rows
use nanotins.Shared.{
  ℕ, zero, suc, ◌+◌, ◌-◌, ◌*◌, ◌/◌, ◌%◌, ◌^◌, ◌≤◌, ◌<◌, ◌≡◌, ◌≢◌, refl, sym, ap, ◌∙◌, arith, subst,
}
use nanotins.Shared.{
  List, [], ◌∷◌, ◌++◌, length, length-append, Option, none, some, ◌==◌, replicate, ◌>>=◌,
}
use nanotins.Shared.{ltb, leb, true, false, if◌then◌else◌, Bool-cases, inl, inr, bit_or}
use nanotins.Shared.Bits.{u16, u32, shl, or_high-low}
use nanotins.Shared.Buffer.{byte_at}
use nanotins.WireSpec.{read_bytes}
use nanotins.WireSpec.BigEndian.{be16, be32, Holds, Holds-drop, Holds-take}
use nanotins.SomeipTlv.{rd_be16, rd_be32}
use nanotins.Lldp.{
  LldpRecord, LldpTlvRow, Typed, untyped, typed_ttl, typed_caps, typed_mgmt, decode_typed,
  value_head_of, subtype_of, value_offset_of, lldp_row, head_size,
}

-- A TLV by its content. `other` is any type that has no columns of its own.
pub data LldpTlv : Type 0 where
  chassis_id : (subtype : ℕ) (id : List ℕ) → LldpTlv
  port_id : (subtype : ℕ) (id : List ℕ) → LldpTlv
  ttl : (seconds : ℕ) (rest : List ℕ) → LldpTlv
  sys_caps : (supported enabled : ℕ) (rest : List ℕ) → LldpTlv
  mgmt_addr : (family : ℕ) (addr : List ℕ) (iface number : ℕ) (oid : List ℕ) → LldpTlv
  other : (type : ℕ) (value : List ℕ) → LldpTlv

abbrev pub type_of : LldpTlv → ℕ
type_of (LldpTlv.chassis_id subtype id) = 1
type_of (LldpTlv.port_id subtype id) = 2
type_of (LldpTlv.ttl seconds rest) = 3
type_of (LldpTlv.sys_caps supported enabled rest) = 7
type_of (LldpTlv.mgmt_addr family addr iface number oid) = 8
type_of (LldpTlv.other type value) = type

abbrev pub value_of : LldpTlv → List ℕ
value_of (LldpTlv.chassis_id subtype id) = subtype ∷ id
value_of (LldpTlv.port_id subtype id) = subtype ∷ id
value_of (LldpTlv.ttl seconds rest) = be16 seconds ++ rest
value_of (LldpTlv.sys_caps supported enabled rest) = be16 supported ++ (be16 enabled ++ rest)
value_of (LldpTlv.mgmt_addr family addr iface number oid) =
    suc (length addr) ∷ family ∷ (addr ++ (iface ∷ (be32 number ++ oid)))
value_of (LldpTlv.other type value) = value

-- Numbers fit their fields, and `other` is none of the types with columns, nor End.
abbrev pub Fits : LldpTlv → Type 0
Fits (LldpTlv.chassis_id subtype id) = Unit
Fits (LldpTlv.port_id subtype id) = Unit
Fits (LldpTlv.ttl seconds rest) = seconds < 2 ^ 16
Fits (LldpTlv.sys_caps supported enabled rest) = (supported < 2 ^ 16) × (enabled < 2 ^ 16)
Fits (LldpTlv.mgmt_addr family addr iface number oid) = number < 2 ^ 32
Fits (LldpTlv.other type value) =
    (type < 128) × (type ≢ 0) × (type ≢ 1) × (type ≢ 2) × (type ≢ 3) × (type ≢ 7) × (type ≢ 8)

abbrev pub subtype_for : LldpTlv → ℕ
subtype_for (LldpTlv.chassis_id subtype id) = subtype
subtype_for (LldpTlv.port_id subtype id) = subtype
subtype_for (LldpTlv.ttl seconds rest) = 0
subtype_for (LldpTlv.sys_caps supported enabled rest) = 0
subtype_for (LldpTlv.mgmt_addr family addr iface number oid) = 0
subtype_for (LldpTlv.other type value) = 0

abbrev pub typed_for : LldpTlv → Typed
typed_for (LldpTlv.chassis_id subtype id) = untyped
typed_for (LldpTlv.port_id subtype id) = untyped
typed_for (LldpTlv.ttl seconds rest) = record untyped { ttl_seconds = seconds }
typed_for (LldpTlv.sys_caps supported enabled rest) = record untyped {
  caps_supported = supported;
  caps_enabled = enabled;
}
typed_for (LldpTlv.mgmt_addr family addr iface number oid) = record untyped {
  mgmt_addr_subtype = family;
  mgmt_iface_subtype = iface;
  mgmt_iface_number = number;
}
typed_for (LldpTlv.other type value) = untyped

pub rd_be16-Holds :
    (mem : List ℕ) (p n : ℕ) → n < 2 ^ 16 → Holds mem p (be16 n) → rd_be16 mem p ≡ some n
unfolding rd_be16
rd_be16-Holds mem p n small (e0, (e1, end)) =
    let fits : u16 (shl (n / 256 % 256) 8) ≡ n / 256 % 256 * 2 ^ 8 = omega arith in
    let joined : bit_or (u16 (shl (n / 256 % 256) 8)) (n % 256) ≡ n =
      rw fits (or_high-low 8 (n / 256 % 256) (n % 256) (omega arith) ∙ omega arith) in
    rw e0 (rw e1 (rw joined (ap some (omega arith))))

pub rd_be32-Holds :
    (mem : List ℕ) (p n : ℕ) → n < 2 ^ 32 → Holds mem p (be32 n) → rd_be32 mem p ≡ some n
unfolding rd_be32
rd_be32-Holds mem p n small (e0, (e1, (e2, (e3, end)))) =
    let a = n / 16777216 % 256 in
    let b = n / 65536 % 256 in
    let c = n / 256 % 256 in
    let d = n % 256 in
    let fa : u32 (shl a 24) ≡ a * 2 ^ 24 = omega arith in
    let fb : u32 (shl b 16) ≡ b * 2 ^ 16 = omega arith in
    let fc : u32 (shl c 8) ≡ c * 2 ^ 8 = omega arith in
    let two : bit_or (u32 (shl a 24)) (u32 (shl b 16)) ≡ (a * 256 + b) * 2 ^ 16 =
      rw fa (rw fb (or_high-low 24 a (b * 2 ^ 16) (omega arith) ∙ omega arith)) in
    let three : bit_or ((a * 256 + b) * 2 ^ 16) (u32 (shl c 8))
        ≡ ((a * 256 + b) * 256 + c) * 2 ^ 8 =
      rw fc (or_high-low 16 (a * 256 + b) (c * 2 ^ 8) (omega arith) ∙ omega arith) in
    let four : bit_or (((a * 256 + b) * 256 + c) * 2 ^ 8) d ≡ n =
      or_high-low 8 ((a * 256 + b) * 256 + c) d (omega arith) ∙ omega arith in
    let f2 : byte_at mem (p + 2) ≡ some c = subst (λ q. byte_at mem q ≡ some c) (omega arith) e2 in
    let f3 : byte_at mem (p + 3) ≡ some d = subst (λ q. byte_at mem q ≡ some d) (omega arith) e3 in
    rw e0 (rw e1 (rw f2 (rw f3 (rw two (rw three (ap some four))))))

pub typed_ttl-Holds :
    (mem : List ℕ) (v n : ℕ) (rest : List ℕ) (len : ℕ)
    → n < 2 ^ 16
    → Holds mem v (be16 n ++ rest)
    → len ≡ 2 + length rest
    → typed_ttl mem v len ≡ some (record untyped { ttl_seconds = n })
typed_ttl-Holds mem v n rest len small h wide =
    let room : leb 2 len ≡ true = ground arith in
    rw room (rw (rd_be16-Holds mem v n small (Holds-take mem v (be16 n) rest h)) refl)

pub typed_caps-Holds :
    (mem : List ℕ) (v s e : ℕ) (rest : List ℕ) (len : ℕ)
    → s < 2 ^ 16
    → e < 2 ^ 16
    → Holds mem v (be16 s ++ (be16 e ++ rest))
    → len ≡ 4 + length rest
    → typed_caps mem v len ≡ some (record untyped { caps_supported = s; caps_enabled = e })
typed_caps-Holds mem v s e rest len small_s small_e h wide =
    let room : leb 4 len ≡ true = ground arith in
    let tail = Holds-drop mem v (be16 s) (be16 e ++ rest) h in
    rw room (
      rw (rd_be16-Holds mem v s small_s (Holds-take mem v (be16 s) (be16 e ++ rest) h))
        (rw (rd_be16-Holds mem (v + 2) e small_e (Holds-take mem (v + 2) (be16 e) rest tail)) refl))

pub typed_mgmt-Holds :
    (mem : List ℕ) (v family : ℕ) (addr : List ℕ) (iface number : ℕ) (oid : List ℕ) (len : ℕ)
    → number < 2 ^ 32
    → Holds mem v (suc (length addr) ∷ family ∷ (addr ++ (iface ∷ (be32 number ++ oid))))
    → len ≡ 2 + length addr + (5 + length oid)
    → typed_mgmt mem v len
      ≡ some (record untyped {
        mgmt_addr_subtype = family;
        mgmt_iface_subtype = iface;
        mgmt_iface_number = number;
      })
typed_mgmt-Holds mem v family addr iface number oid len small (e0, (e1, h)) wide =
    let n = suc (length addr) in
    let full : ltb len 1 ≡ false = ground arith in
    let some_addr : ltb n 1 ≡ false = ground arith in
    let fits : ltb len (1 + n) ≡ false = ground arith in
    let room : leb (1 + n + 1) len ≡ true = ground arith in
    let room4 : leb (1 + n + 1 + 4) len ≡ true = ground arith in
    let tail : Holds mem (v + (1 + n)) (iface ∷ (be32 number ++ oid)) =
      subst (λ p. Holds mem p (iface ∷ (be32 number ++ oid))) (omega arith)
        (Holds-drop mem (v + 1 + 1) addr (iface ∷ (be32 number ++ oid)) h) in
    let read =
      rd_be32-Holds mem (v + (1 + n) + 1) number small
        (Holds-take mem (v + (1 + n) + 1) (be32 number) oid tail.1) in
    rw full (rw e0 (rw some_addr (rw fits (rw e1 (rw room (rw tail.0 (rw room4 (rw read refl))))))))
