-- ===== src/Shared/Buffer.antt =====
-- The memory behind the program's byte pointers: one buffer, a pointer into it as an offset, and a
-- read that faults outside it. `pcapblocks::Bytes` and `protocols::Bytes` are windows of a buffer.
use Prim.Native.Nat.{ℕ, zero, suc, ◌+◌, ◌<◌, ◌≤◌}
use mathlib.Core.Path.{◌≡◌, ap, ◌∙◌}
use mathlib.Core.List.{List, [], ◌∷◌, ◌++◌}
use mathlib.Core.Option.{Option, none, some}
use native.Mathlib.Omega.{arith}
use nanotins.Shared.Tests.{ltb, if◌then◌else◌}
use nanotins.Shared.Lists.{length, get_or, All, length-append, get_or-append_right}

-- The byte at an offset, 0 outside the buffer.
abbrev pub byte : List ℕ → ℕ → ℕ
byte mem i = get_or mem i 0

-- `p[i]`: outside the buffer the read faults.
unfoldable pub byte_at : List ℕ → ℕ → Option ℕ
byte_at mem i = if ltb i (length mem) then some (byte mem i) else none

pub byte_at-lt : (mem : List ℕ) (i : ℕ) → i < length mem → byte_at mem i ≡ some (byte mem i)
unfolding byte_at
byte_at-lt mem i h = ground arith

pub byte_at-ge : (mem : List ℕ) (i : ℕ) → length mem ≤ i → byte_at mem i ≡ none
unfolding byte_at
byte_at-ge mem i h = ground arith

abbrev pub IsBytes : List ℕ → Type 0
IsBytes mem = All (λ b. b < 256) mem

pub byte-lt : (mem : List ℕ) (i : ℕ) → IsBytes mem → byte mem i < 256
byte-lt [] i h = omega arith
byte-lt (b ∷ mem) zero h = h.0
byte-lt (b ∷ mem) (suc i) h = byte-lt mem i h.1

-- Reading behind a prefix.
pub byte_at-append :
    (front rest : List ℕ) (k : ℕ)
    → k < length rest
    → byte_at (front ++ rest) (length front + k) ≡ some (byte rest k)
byte_at-append front rest k h =
    byte_at-lt (front ++ rest) (length front + k) (omega (arith, length-append front rest))
    ∙ ap some (get_or-append_right front rest k 0)
