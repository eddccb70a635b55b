-- ===== src/Pcap/Parse/Overrun.antt =====
-- pcap_blocks.hpp, phase B: the packet blocks whose captured length takes the option cursor outside
-- the file.
use nanotins.Shared.{ℕ, ◌+◌, ◌-◌, ◌^◌, ◌≤◌, ◌<◌, ◌≡◌, arith, List, length, none, some}
use nanotins.Pcap.{Kind, BlockRef, rd32}
use nanotins.Pcap.Readers.{rd32-word32, pad4-arith}
use nanotins.Pcap.Options.Bounds.{for_options_outside}
use nanotins.Pcap.Parse.{
  epb_options_offset, epb_options, visit_flags, parse_packet_block, parse_epb,
}

-- The class of packet blocks on which the parse leaves the file: a block of at least 32 bytes, below
-- 2^32, lies inside a file that is shorter than 2^64 bytes and ends at its offset plus 2^32 - 4 at
-- the latest, and the captured length it declares is from 0xFFFFFFDD to 0xFFFFFFE0. The offset
-- computed for its options is then 2^32 - 4, the test `opt_off + 4 <= ref.length` wraps to 0 and
-- passes, and the option walk reads outside the file: `parse_epb` faults.
pub parse_epb_overruns :
    (file : List ℕ) (ref : BlockRef) (caplen : ℕ)
    → ref.kind ≡ Kind.epb
    → ref.file_offset + ref.len ≤ length file
    → 32 ≤ ref.len
    → ref.len < 2 ^ 32
    → length file ≤ ref.file_offset + (2 ^ 32 - 4)
    → length file < 2 ^ 64
    → rd32 file (ref.file_offset + 20) ref.little_endian ≡ some caplen
    → 0xFFFF_FFDD ≤ caplen
    → caplen ≤ 0xFFFF_FFE0
    → parse_epb file ref ≡ none
unfolding parse_epb parse_packet_block
parse_epb_overruns file ref caplen kind inside long narrow past small read low high =
    let hit : epb_options_offset caplen ≡ 2 ^ 32 - 4 = omega (arith, pad4-arith caplen) in
    ground (
      arith,
      for_options_outside file (visit_flags file ref.little_endian) (epb_options ref caplen) 0
          (ref.file_offset + (2 ^ 32 - 4)) (unfold epb_options in ground arith)
          (unfold epb_options in ground arith) past,
      rd32-word32 file (ref.file_offset + 8) ref.little_endian,
      rd32-word32 file (ref.file_offset + 12) ref.little_endian,
      rd32-word32 file (ref.file_offset + 16) ref.little_endian,
      rd32-word32 file (ref.file_offset + 24) ref.little_endian,
    )
