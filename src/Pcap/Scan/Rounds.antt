-- ===== src/Pcap/Scan/Rounds.antt =====
-- pcap_blocks.hpp, phase A: one round of each loop, as equations.
use nanotins.Shared.{ℕ, suc, ◌+◌, ◌≤◌, ◌<◌, ◌≡◌, arith, Option, none, some, Bool, true}
use nanotins.Shared.{List, [], ◌∷◌, ◌++◌, length, ◌==◌, if◌then◌else◌}
use nanotins.Shared.{inl, inr, Bool-cases}
use nanotins.Pcap.{ScanState, BlockRef, block_type_shb, byte_order_magic}
use nanotins.Pcap.Readers.{word32, rd32-word32}
use nanotins.Pcap.Scan.{
  ScanError, bad_block_length, LoopEnd, record_ref, record_loop, BlockHeader, block_header,
  block_ref, commit, block_loop,
}

-- A loop that stops at `pos`.
abbrev pub stop_at : ScanState → ℕ → List BlockRef → Option ScanError → Option LoopEnd
stop_at st pos out error = some (record { state = st; pos = pos; out = out; error = error })

-- The total length of the legacy record at `pos`.
abbrev pub record_total : List ℕ → ScanState → ℕ → ℕ
record_total file st pos = 16 + word32 file (pos + 8) st.little_endian

-- The header that `block_header` reads inside the buffer.
abbrev pub header_le : List ℕ → Bool → ℕ → Bool
header_le file section_le pos =
    if word32 file pos true == block_type_shb
    then word32 file (pos + 8) true == byte_order_magic
    else section_le

abbrev pub header_at : List ℕ → Bool → ℕ → BlockHeader
header_at file section_le pos = record {
  type =
      if word32 file pos true == block_type_shb
      then block_type_shb
      else word32 file pos (header_le file section_le pos);
  total = word32 file (pos + 4) (header_le file section_le pos);
  le = header_le file section_le pos;
  is_shb = word32 file pos true == block_type_shb;
}

pub block_header-header_at :
    (file : List ℕ) (le : Bool) (pos : ℕ)
    → pos + 12 ≤ length file
    → block_header file le pos ≡ some (header_at file le pos)
unfolding block_header
block_header-header_at file le pos h = elim (Bool-cases (word32 file pos true == block_type_shb)) [
  | inl e ↦ rw (rd32-word32 file pos true (omega arith)) (
      rw e (
        rw (rd32-word32 file (pos + 8) true (omega arith))
          (rw (rd32-word32 file (pos + 4) _ (omega arith)))))
  | inr e ↦ rw (rd32-word32 file pos true (omega arith)) (
      rw e (
        rw (rd32-word32 file pos le (omega arith))
          (rw (rd32-word32 file (pos + 4) le (omega arith)))))
]

module _ (fuel : ℕ) (file : List ℕ) (st : ScanState) (pos : ℕ) (out : List BlockRef) where
  pub record_loop_short :
      length file < pos + 16 → record_loop (suc fuel) file st pos out ≡ stop_at st pos out none
  unfolding record_loop
  record_loop_short h = ground arith

  pub record_loop_partial :
      pos + 16 ≤ length file
      → length file < pos + record_total file st pos
      → record_loop (suc fuel) file st pos out ≡ stop_at st pos out none
  unfolding record_loop
  record_loop_partial h long = ground (arith, rd32-word32 file (pos + 8) st.little_endian)

  pub record_loop_next :
      pos + record_total file st pos ≤ length file
      → record_loop (suc fuel) file st pos out
        ≡ record_loop fuel file st
            (pos + record_total file st pos)
            (out ++ (record_ref st pos (record_total file st pos) ∷ []))
  unfolding record_loop
  record_loop_next h = ground (arith, rd32-word32 file (pos + 8) st.little_endian)

  abbrev pub here : BlockHeader
  here = header_at file st.little_endian pos

  pub block_loop_short :
      length file < pos + 12 → block_loop (suc fuel) file st pos out ≡ stop_at st pos out none
  unfolding block_loop
  block_loop_short h = ground arith

  module _ (read : pos + 12 ≤ length file) where
    pub block_loop_bad :
        here.total < 12
        → block_loop (suc fuel) file st pos out ≡ stop_at st pos out (some bad_block_length)
    unfolding block_loop
    block_loop_bad h = ground (arith, block_header-header_at file st.little_endian pos read)

    pub block_loop_partial :
        12 ≤ here.total
        → length file < pos + here.total
        → block_loop (suc fuel) file st pos out ≡ stop_at st pos out none
    unfolding block_loop
    block_loop_partial h long =
        ground (arith, block_header-header_at file st.little_endian pos read)

    pub block_loop_next :
        12 ≤ here.total
        → pos + here.total ≤ length file
        → block_loop (suc fuel) file st pos out
          ≡ block_loop fuel file
              (commit st here)
              (pos + here.total)
              (out ++ (block_ref pos here ∷ []))
    unfolding block_loop
    block_loop_next h fits = ground (arith, block_header-header_at file st.little_endian pos read)
