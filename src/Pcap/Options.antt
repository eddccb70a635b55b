-- ===== src/Pcap/Options.antt =====
-- pcap_blocks.hpp: the zero-copy option cursor, and the loop over it.
pub mod Bounds
use nanotins.Shared.{ℕ, zero, suc, ◌+◌, ◌-◌, List, Option, none, some, Bool, ltb, ◌==◌}
use nanotins.Shared.{if◌then◌else◌, ◌>>=◌}
use nanotins.Shared.Bits.{u32}
use nanotins.Pcap.{OptionCursor, BlockOption, rd16, pad4}

-- `some none` is `return false`.
abbrev pub Next : Type 0
Next = Option (Option (BlockOption × OptionCursor))

-- The body of `next_option` at a cursor that is not null.
pub next_option_at : List ℕ → (start size : ℕ) → Bool → Next
next_option_at mem start size le = do
  code ← rd16 mem start le
  len ← rd16 mem (start + 2) le
  let advance = u32 (4 + pad4 len)
  if code == 0
      then some none
      else if ltb size advance
      then some none
      else some (
          some (
            record { code = code; len = len; value = start + 4 },
            record { start = some (start + advance); size = size - advance; little_endian = le },
          ))

unfoldable pub next_option : List ℕ → OptionCursor → Next
next_option mem c = elim c.start [
  | none ↦ some none
  | some start ↦ if ltb c.size 4 then some none else next_option_at mem start c.size c.little_endian
]

-- `while (next_option(cursor, opt)) acc = visit(acc, opt);`. An option takes 4 bytes at least, so a
-- round for each byte of the region and one more are enough.
unfoldable pub options_loop {ℓ} :
    {A : Type ℓ} → ℕ → List ℕ → (A → BlockOption → Option A) → OptionCursor → A → Option A
options_loop zero mem visit c acc = none
options_loop (suc fuel) mem visit c acc = do
  step ← next_option mem c
  elim step [
    | none ↦ some acc
    | some (opt, c') ↦ visit acc opt >>= λ acc'. options_loop fuel mem visit c' acc'
  ]

unfoldable pub for_options {ℓ} :
    {A : Type ℓ} → List ℕ → (A → BlockOption → Option A) → OptionCursor → A → Option A
unfolding options_loop
for_options mem visit c acc = options_loop (suc c.size) mem visit c acc
