-- ===== src/Lldp/Cursor.antt =====
-- examples/lldp/lldp.hpp: the cursor stays inside its region, and a row's reads stay inside the value.
use nanotins.Shared.{ℕ, ◌+◌, ◌≤◌, ◌<◌, ◌≡◌, ◌≢◌, refl, arith, List, length}
use nanotins.Shared.{
  Option, none, some, Bool, true, false, ltb, leb, ◌==◌, ◌&&◌, ◌||◌, if◌then◌else◌,
}
use nanotins.Shared.{Bool-cases, inl, inr, bit_and}
use nanotins.Shared.Bits.{shr}
use nanotins.Shared.Buffer.{byte, byte_at, byte_at-lt}
use nanotins.WireSpec.Bounds.{IsRead, IsRead->>=, read_bytes-IsRead}
use nanotins.SomeipTlv.{rd_be16, rd_be32}
use nanotins.Lldp.{
  LldpRecord, LldpCursor, packed_tlv, next_at, next, typed_mgmt, decode_typed, head_size,
  value_head_of, subtype_of, lldp_row, lldp_ttl, lldp_sys_caps, lldp_mgmt_addr, lldp_chassis_id,
  lldp_port_id,
}

IsRead-if {ℓ} :
    {A : Type ℓ} (b : Bool) {x y : Option A}
    → (b ≡ true → IsRead x)
    → (b ≡ false → IsRead y)
    → IsRead (if b then x else y)
IsRead-if true h k = h refl
IsRead-if false h k = k refl

byte_at-IsRead : (mem : List ℕ) (p : ℕ) → p < length mem → IsRead (byte_at mem p)
byte_at-IsRead mem p h = (byte mem p, byte_at-lt mem p h)

rd_be16-IsRead : (mem : List ℕ) (p : ℕ) → p + 2 ≤ length mem → IsRead (rd_be16 mem p)
unfolding rd_be16
rd_be16-IsRead mem p h =
    IsRead->>= _ _ (byte_at-IsRead mem p (omega arith))
      (λ a. IsRead->>= _ _ (byte_at-IsRead mem (p + 1) (omega arith)) (λ b. (_, refl)))

rd_be32-IsRead : (mem : List ℕ) (p : ℕ) → p + 4 ≤ length mem → IsRead (rd_be32 mem p)
unfolding rd_be32
rd_be32-IsRead mem p h = IsRead->>= _ _ (byte_at-IsRead mem p (omega arith)) (λ a.
    IsRead->>= _ _ (byte_at-IsRead mem (p + 1) (omega arith)) (λ b.
      IsRead->>= _ _ (byte_at-IsRead mem (p + 2) (omega arith))
        (λ c. IsRead->>= _ _ (byte_at-IsRead mem (p + 3) (omega arith)) (λ d. (_, refl)))))

-- Where a record's value lies, and what the cursor's step has taken.
abbrev pub ValueAt : (p q len : ℕ) → Option ℕ → Type 0
ValueAt p q len none = (len ≡ 0) × (q ≡ p + 2)
ValueAt p q len (some v) = (v ≡ p + 2) × (q ≡ v + len)

pub record Stepped (p end : ℕ) (r : LldpRecord) (c' : LldpCursor) (q : ℕ) : Type 0 where
  pub at : c'.p ≡ some q
  pub same_end : c'.end ≡ end
  pub later : p + 2 ≤ q
  pub inside : q ≤ end
  pub closed : r.type ≢ 0
  pub value_at : ValueAt p q r.len r.value

abbrev pub StepOf : (p end : ℕ) → Option (LldpRecord × LldpCursor) → Type 0
StepOf p end none = Unit
StepOf p end (some (r, c')) = (q : ℕ) × Stepped p end r c' q

packed_tlv-StepOf : (p end hdr : ℕ) → StepOf p end (packed_tlv p end hdr)
packed_tlv-StepOf p end hdr = elim (Bool-cases (shr hdr 9 == 0)) [
  | inl closing ↦ rw closing tt
  | inr open_tlv ↦ elim (Bool-cases (ltb end (p + 2 + bit_and hdr 0x01FF))) [
    | inl cut ↦ rw open_tlv (rw cut tt)
    | inr fits ↦ rw open_tlv (
        rw fits (
          p + 2 + bit_and hdr 0x01FF,
          record {
            at = refl;
            same_end = refl;
            later = omega arith;
            inside = ground arith;
            closed = λ z. ground arith;
            value_at = value_at (bit_and hdr 0x01FF) _ refl;
          },
        ))
  ]
]
  where
    value_at :
        (n : ℕ) (b : Bool)
        → (n == 0) ≡ b
        → ValueAt p (p + 2 + n) n (if b then none else some (p + 2))
    value_at n true empty = (ground arith, ground arith)
    value_at n false full = (refl, refl)

-- The cursor's step over a region inside the buffer returns, and a record that it delivers lies
-- inside.
pub next-StepOf :
    (mem : List ℕ) (c : LldpCursor) (p : ℕ)
    → c.p ≡ some p
    → c.end ≤ length mem
    → (o : Option (LldpRecord × LldpCursor)) × (next mem c ≡ some o) × StepOf p c.end o
unfolding next next_at
next-StepOf mem c p e inside = elim (Bool-cases (ltb c.end (p + 2))) [
  | inl short ↦ (none, rw e (rw short refl), tt)
  | inr room ↦
      let (hdr, read) = rd_be16-IsRead mem p (ground arith) in
      (packed_tlv p c.end hdr, rw e (rw room (rw read refl)), packed_tlv-StepOf p c.end hdr)
]

abbrev pub ValueInside : List ℕ → LldpRecord → Option ℕ → Type 0
ValueInside mem r none = r.len ≡ 0
ValueInside mem r (some v) = v + r.len ≤ length mem

typed_mgmt-IsRead :
    (mem : List ℕ) (v len : ℕ) → v + len ≤ length mem → IsRead (typed_mgmt mem v len)
typed_mgmt-IsRead mem v len h =
    IsRead-if (ltb len 1) (λ none_left. (_, refl))
      (λ some_left. IsRead->>= _ _ (byte_at-IsRead mem v (ground arith)) (λ n.
        IsRead-if (ltb n 1 || ltb len (1 + n)) (λ cut. (_, refl))
          (λ fits. IsRead->>= _ _ (byte_at-IsRead mem (v + 1) (ground arith)) (λ family.
            IsRead->>= _ _
              (IsRead-if (leb (1 + n + 1) len)
                (λ room. byte_at-IsRead mem (v + (1 + n)) (ground arith)) (λ cut. (0, refl)))
              (λ iface.
                IsRead->>= _ _
                  (IsRead-if (leb (1 + n + 1 + 4) len)
                    (λ room. rd_be32-IsRead mem (v + (1 + n) + 1) (ground arith))
                    (λ cut. (0, refl)))
                  (λ number. (_, refl)))))))

decode_typed-IsRead :
    (mem : List ℕ) (r : LldpRecord) (o : Option ℕ)
    → r.value ≡ o
    → ValueInside mem r o
    → IsRead (decode_typed mem r)
unfolding decode_typed
decode_typed-IsRead mem r none e h = rw e (_, refl)
decode_typed-IsRead mem r (some v) e h = rw e (
    IsRead-if (r.type == lldp_ttl)
      (λ ttl.
        IsRead-if (leb 2 r.len)
          (λ room. IsRead->>= _ _ (rd_be16-IsRead mem v (ground arith)) (λ t. (_, refl)))
          (λ cut. (_, refl)))
      (λ other.
        IsRead-if (r.type == lldp_sys_caps)
          (λ caps.
            IsRead-if (leb 4 r.len)
              (λ room.
                IsRead->>= _ _ (rd_be16-IsRead mem v (ground arith)) (λ a.
                  IsRead->>= _ _ (rd_be16-IsRead mem (v + 2) (ground arith)) (λ b. (_, refl))))
              (λ cut. (_, refl)))
          (λ other'.
            IsRead-if (r.type == lldp_mgmt_addr) (λ mgmt. typed_mgmt-IsRead mem v r.len h)
              (λ rest. (_, refl)))))

value_head_of-IsRead :
    (mem : List ℕ) (r : LldpRecord) (o : Option ℕ)
    → r.value ≡ o
    → ValueInside mem r o
    → IsRead (value_head_of mem r)
value_head_of-IsRead mem r none e h =
    rw e (IsRead-if (r.len == 0) (λ z. (_, refl)) (λ nz. ground arith))
value_head_of-IsRead mem r (some v) e h =
    rw e
      (IsRead->>= _ _ (read_bytes-IsRead mem v (head_size r.len) (ground arith)) (λ bs. (_, refl)))

subtype_of-IsRead :
    (mem : List ℕ) (r : LldpRecord) (o : Option ℕ)
    → r.value ≡ o
    → ValueInside mem r o
    → IsRead (subtype_of mem r)
subtype_of-IsRead mem r none e h = rw e (_, refl)
subtype_of-IsRead mem r (some v) e h = rw e (
    IsRead-if ((r.type == lldp_chassis_id || r.type == lldp_port_id) && leb 1 r.len)
      (λ has. byte_at-IsRead mem v (ground arith)) (λ other. (_, refl)))

-- The row of a record whose value lies inside the buffer is made without a read outside it.
pub lldp_row-IsRead :
    (mem : List ℕ) (pid rule_id p idx : ℕ) (r : LldpRecord)
    → ValueInside mem r r.value
    → IsRead (lldp_row mem pid rule_id p idx r)
unfolding lldp_row
lldp_row-IsRead mem pid rule_id p idx r h =
    IsRead->>= _ _ (subtype_of-IsRead mem r _ refl h) (λ subtype.
      IsRead->>= _ _ (value_head_of-IsRead mem r _ refl h)
        (λ head. IsRead->>= _ _ (decode_typed-IsRead mem r _ refl h) (λ t. (_, refl))))
