-- ===== src/SomeipTlv/Bounds.antt =====
-- someip_tlv.hpp: one call of the cursor stays inside its region.
use nanotins.Shared.{ℕ, ◌+◌, ◌≤◌, ◌<◌, ◌≡◌, inl, inr, arith}
use nanotins.Shared.{Option, none, some, List, length, ◌>>=◌, ltb, ltb-false→le, Bool-cases}
use nanotins.Shared.Buffer.{byte, byte_at-lt}
use nanotins.Shared.Bits.{u16, u32, shl, shr}
use nanotins.Shared.{bit_or, bit_and}
use nanotins.SomeipTlv.{MemberCursor, Next, rd_be16, rd_be32, value_length, deliver, next_at, next}

-- The words that the readers assemble.
abbrev pub be16 : List ℕ → ℕ → ℕ
be16 mem p = u16 (bit_or (u16 (shl (byte mem p) 8)) (byte mem (p + 1)))

abbrev pub be32 : List ℕ → ℕ → ℕ
be32 mem p =
    bit_or
      (bit_or (bit_or (u32 (shl (byte mem p) 24)) (u32 (shl (byte mem (p + 1)) 16)))
        (u32 (shl (byte mem (p + 2)) 8)))
      (byte mem (p + 3))

pub rd_be16-be16 : (mem : List ℕ) (p : ℕ) → p + 2 ≤ length mem → rd_be16 mem p ≡ some (be16 mem p)
unfolding rd_be16
rd_be16-be16 mem p h =
    rw (byte_at-lt mem p (omega arith)) (rw (byte_at-lt mem (p + 1) (omega arith)))

pub rd_be32-be32 : (mem : List ℕ) (p : ℕ) → p + 4 ≤ length mem → rd_be32 mem p ≡ some (be32 mem p)
unfolding rd_be32
rd_be32-be32 mem p h = rw (byte_at-lt mem p (omega arith)) (
    rw (byte_at-lt mem (p + 1) (omega arith))
      (rw (byte_at-lt mem (p + 2) (omega arith)) (rw (byte_at-lt mem (p + 3) (omega arith)))))

-- The length field is read inside the region, and the value starts at or after it.
abbrev pub StartsAfter : ℕ → ℕ → Option (Option (ℕ × ℕ)) → Type 0
StartsAfter q end none = ⊥
StartsAfter q end (some none) = Unit {0}
StartsAfter q end (some (some (len, v))) = (q ≤ v) × (v ≤ q + 4)

-- The value lies between two bytes past the old position and the new one, and ends there; it is
-- absent exactly when its length is 0.
abbrev pub ValueEnds : (p q len : ℕ) → Option ℕ → Type 0
ValueEnds p q len none = len ≡ 0
ValueEnds p q len (some v) = (0 < len) × (p + 2 ≤ v) × (v + len ≡ q)

abbrev pub Lands : (p end len : ℕ) → Option ℕ → Option ℕ → ℕ → Type 0
Lands p end len value none e = ⊥
Lands p end len value (some q) e =
    (p + 2 + len ≤ q) × (q ≤ end) × (e ≡ end) × ValueEnds p q len value

abbrev pub Advances : (p end : ℕ) → Next → Type 0
Advances p end none = ⊥
Advances p end (some none) = Unit {0}
Advances p end (some (some (r, c))) = Lands p end r.len r.value c.p c.end

module _ (mem : List ℕ) (p end : ℕ) (inside : end ≤ length mem) where
  value_length-StartsAfter : (q wt : ℕ) → StartsAfter q end (value_length mem q end wt)
  unfolding value_length
  value_length-StartsAfter q wt =
      ground (arith, byte_at-lt mem q, rd_be16-be16 mem q, rd_be32-be32 mem q)

  deliver-Advances :
      (q tag wt : ℕ) (o : Option (Option (ℕ × ℕ)))
      → p + 2 ≤ q
      → StartsAfter q end o
      → Advances p end (o >>= λ v. some (deliver end tag wt v))
  unfolding deliver
  deliver-Advances q tag wt none h s = s
  deliver-Advances q tag wt (some none) h s = tt
  deliver-Advances q tag wt (some (some (len, v))) h s = ground arith

  pub next_at-Advances : Advances p end (next_at mem p end)
  unfolding next_at
  next_at-Advances = elim (Bool-cases (ltb end (p + 2))) [
    | inl short ↦ rw short tt
    | inr long ↦
        let fits : p + 2 ≤ end = ltb-false→le _ _ long in
        rw long (
          rw (rd_be16-be16 mem p (omega arith)) (
            deliver-Advances (p + 2) (be16 mem p) (bit_and (shr (be16 mem p) 12) 0x7) _
              (omega arith) (value_length-StartsAfter (p + 2) (bit_and (shr (be16 mem p) 12) 0x7))))
  ]

-- The cursor never reads outside its region, and a member it delivers lies inside: for a cursor
-- whose `end` is inside the buffer, `next` does not fault, whatever the bytes are; where it answers
-- true, `end` is kept and the cursor has moved past the two bytes of the tag and the value, and not
-- past `end`, and the value ends at the new position, and is absent only when its length is 0.
pub member_next-Advances :
    (mem : List ℕ) (c : MemberCursor) (p : ℕ)
    → c.p ≡ some p
    → c.end ≤ length mem
    → Advances p c.end (next mem c)
unfolding next
member_next-Advances mem c p e inside = rw e (next_at-Advances mem p c.end inside)
