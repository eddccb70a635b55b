-- ===== src/SomeipTlv.antt =====
-- nanotins/include/nanotins/someip_tlv.hpp: the bounds-checked cursor over SOME/IP TLV members. A
-- pointer is an offset into the buffer `mem`; faults and fuel are as in Tlv.
pub mod Bounds
pub mod Walk
use nanotins.Shared.{ℕ, zero, suc, ◌+◌, ◌-◌, ◌%◌, bit_and, bit_or, List, [], ◌∷◌}
use nanotins.Shared.{Option, none, some, length, ltb, ◌==◌, if◌then◌else◌, ◌>>=◌}
use nanotins.Shared.Bits.{u16, u32, shl, shr}
use nanotins.Shared.Buffer.{byte_at}

pub record MemberRecord : Type 0 where
  pub data_id : ℕ
  pub wire_type : ℕ
  pub len : ℕ
  pub value : Option ℕ

pub record MemberCursor : Type 0 where
  pub p : Option ℕ
  pub end : ℕ

unfoldable pub rd_be16 : List ℕ → ℕ → Option ℕ
rd_be16 mem p = do a ← byte_at mem p; b ← byte_at mem (p + 1); some (u16 (bit_or (u16 (shl a 8)) b))

unfoldable pub rd_be32 : List ℕ → ℕ → Option ℕ
rd_be32 mem p = do
  a ← byte_at mem p
  b ← byte_at mem (p + 1)
  c ← byte_at mem (p + 2)
  d ← byte_at mem (p + 3)
  some (bit_or (bit_or (bit_or (u32 (shl a 24)) (u32 (shl b 16))) (u32 (shl c 8))) d)

-- The `switch (wt)`: the value's length and the first byte of the value; `some none` is `return
-- false`.
pub value_length : List ℕ → (q end wt : ℕ) → Option (Option (ℕ × ℕ))
value_length mem q end wt =
    if wt == 0
    then some (some (1, q))
    else if wt == 1
    then some (some (2, q))
    else if wt == 2
    then some (some (4, q))
    else if wt == 3
    then some (some (8, q))
    else if wt == 5
    then (if ltb end (q + 1) then some none else byte_at mem q >>= λ len. some (some (len, q + 1)))
    else if wt == 6
    then (if ltb end (q + 2) then some none else rd_be16 mem q >>= λ len. some (some (len, q + 2)))
    else if wt == 7
    then (if ltb end (q + 4) then some none else rd_be32 mem q >>= λ len. some (some (len, q + 4)))
    else some none

abbrev pub Next : Type 0
Next = Option (Option (MemberRecord × MemberCursor))

-- The end of `next`: the value must fit the region.
pub deliver : (end tag wt : ℕ) → Option (ℕ × ℕ) → Option (MemberRecord × MemberCursor)
deliver end tag wt none = none
deliver end tag wt (some (len, q)) =
    if ltb end (q + len)
    then none
    else some (
      record {
        data_id = bit_and tag 0x0fff;
        wire_type = wt;
        len = len;
        value = if len == 0 then none else some q;
      },
      record { p = some (q + len); end = end },
    )

pub next_at : List ℕ → (p end : ℕ) → Next
next_at mem p end = if ltb end (p + 2) then some none else do
  tag ← rd_be16 mem p
  let wt = bit_and (shr tag 12) 0x7
  v ← value_length mem (p + 2) end wt
  some (deliver end tag wt v)

pub next : List ℕ → MemberCursor → Next
next mem c = elim c.p [ none ↦ some none | some p ↦ next_at mem p c.end ]

-- `while (c.next(r)) ++n;`, with `n` a uint32_t.
pub count_loop : ℕ → List ℕ → MemberCursor → ℕ → Option ℕ
count_loop zero mem c n = none
count_loop (suc fuel) mem c n = do
  step ← next mem c
  elim step [ none ↦ some n | some (r, c') ↦ count_loop fuel mem c' (u32 (n + 1)) ]

pub someip_tlv_count : List ℕ → (p end : ℕ) → Option ℕ
someip_tlv_count mem p end = count_loop (suc (end - p)) mem (record { p = some p; end = end }) 0

-- `while (c.next(r)) visit(r);`: the members that a caller's loop visits, in order.
unfoldable pub members_loop : ℕ → List ℕ → MemberCursor → Option (List MemberRecord)
members_loop zero mem c = none
members_loop (suc fuel) mem c = do
  step ← next mem c
  elim step [ none ↦ some [] | some (r, c') ↦ members_loop fuel mem c' >>= λ rs. some (r ∷ rs) ]

unfoldable pub someip_tlv_members : List ℕ → (p end : ℕ) → Option (List MemberRecord)
someip_tlv_members mem p end = members_loop (suc (end - p)) mem (record { p = some p; end = end })
