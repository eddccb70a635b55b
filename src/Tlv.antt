-- ===== src/Tlv.antt =====
-- nanotins/include/nanotins/tlv.hpp: the bounds-checked cursor over [type][len][value] records, the
-- count pass, and the fixed-stride index. A pointer is an offset into the buffer `mem`, and a null
-- pointer is `none`. The outer `Option` of a result is `none` when a read faults; a loop also answers
-- `none` when its fuel runs out.
pub mod Bounds
pub mod Walk
pub mod RoundTrip
use nanotins.Shared.{ℕ, zero, suc, ◌+◌, ◌-◌, ◌*◌, ◌%◌, ◌≡◌, Bool, true, false, ◌||◌}
use nanotins.Shared.{Option, none, some, List, [], ◌∷◌, length}
use nanotins.Shared.{ltb, leb, ◌==◌, if◌then◌else◌, ◌>>=◌}
use nanotins.Shared.Bits.{u8, u32}
use nanotins.Shared.Buffer.{byte_at}

pub record TlvRecord : Type 0 where
  pub type : ℕ
  pub len : ℕ
  pub value : Option ℕ

pub data TlvPad : Type 0 where
  ipv6_options ipv4_options raw : TlvPad

pub record TlvCursor : Type 0 where
  pub p : Option ℕ
  pub end : ℕ
  pub pad : TlvPad

-- What `next` returns: `some (some (record, cursor))` for true, `some none` for false.
abbrev pub Next : Type 0
Next = Option (Option (TlvRecord × TlvCursor))

abbrev pub emit : (type len : ℕ) → Option ℕ → (p end : ℕ) → TlvPad → Next
emit type len value p end pad = some (
    some (
      record { type = type; len = len; value = value },
      record { p = some p; end = end; pad = pad },
    ))

-- The shared tail of `next`: the length octet counts the value alone.
pub next_value : List ℕ → (p end : ℕ) → TlvPad → ℕ → Next
next_value mem p end pad t = if ltb end (p + 2) then some none else do
  len ← byte_at mem (p + 1)
  if ltb end (p + 2 + len) then some none else emit t len (some (p + 2)) (p + 2 + len) end pad

-- An IPv4 option past EOOL and NOP: the length octet counts the whole option.
unfoldable pub next_option_ipv4 : List ℕ → (p end : ℕ) → ℕ → Next
next_option_ipv4 mem p end t = if ltb end (p + 2) then some none else do
  wlen ← byte_at mem (p + 1)
  if ltb wlen 2 || ltb end (p + wlen)
      then some none
      else emit t (u8 (wlen + 256 - 2)) (some (p + 2)) (p + wlen) end TlvPad.ipv4_options

-- The body of `next` after the type octet is read.
unfoldable pub next_typed : List ℕ → (p end : ℕ) → TlvPad → ℕ → Next
next_typed mem p end TlvPad.ipv6_options t =
    if t == 0
    then emit 0 0 none (p + 1) end TlvPad.ipv6_options
    else next_value mem p end TlvPad.ipv6_options t
next_typed mem p end TlvPad.ipv4_options t =
    if t == 0
    then emit 0 0 none end end TlvPad.ipv4_options
    else if t == 1
    then emit 1 0 none (p + 1) end TlvPad.ipv4_options
    else next_option_ipv4 mem p end t
next_typed mem p end TlvPad.raw t = next_value mem p end TlvPad.raw t

unfoldable pub next_at : List ℕ → (p end : ℕ) → TlvPad → Next
next_at mem p end pad =
    if leb end p then some none else do t ← byte_at mem p; next_typed mem p end pad t

unfoldable pub next : List ℕ → TlvCursor → Next
next mem c = elim c.p [ none ↦ some none | some p ↦ next_at mem p c.end c.pad ]

-- `while (c.next(r)) ++n;`, with `n` a uint32_t.
pub count_loop : ℕ → List ℕ → TlvCursor → ℕ → Option ℕ
count_loop zero mem c n = none
count_loop (suc fuel) mem c n = do
  step ← next mem c
  elim step [ none ↦ some n | some (r, c') ↦ count_loop fuel mem c' (u32 (n + 1)) ]

-- Each record takes at least a byte, so a round for each byte of the region and one more are enough.
pub tlv_count : List ℕ → (p end : ℕ) → TlvPad → Option ℕ
tlv_count mem p end pad =
    count_loop (suc (end - p)) mem (record { p = some p; end = end; pad = pad }) 0

-- `while (c.next(r)) visit(r);`: the records that the loop visits, in order.
unfoldable pub records_loop : ℕ → List ℕ → TlvCursor → Option (List TlvRecord)
records_loop zero mem c = none
records_loop (suc fuel) mem c = do
  step ← next mem c
  elim step [ none ↦ some [] | some (r, c') ↦ records_loop fuel mem c' >>= λ rs. some (r ∷ rs) ]

unfoldable pub tlv_records : List ℕ → (p end : ℕ) → TlvPad → Option (List TlvRecord)
tlv_records mem p end pad =
    records_loop (suc (end - p)) mem (record { p = some p; end = end; pad = pad })

-- `base == nullptr` is `none`.
unfoldable pub repeat_at : Option ℕ → (count stride end i : ℕ) → Option ℕ
repeat_at none count stride end i = none
repeat_at (some base) count stride end i =
    if leb count i
    then none
    else (let q = base + i * stride in if leb (q + stride) end then some q else none)
