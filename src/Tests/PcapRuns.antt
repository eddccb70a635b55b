-- ===== src/Tests/PcapRuns.antt =====
-- The pcap layer: the theorems at a concrete section.
use nanotins.Shared.{ℕ, ◌-◌, ◌^◌, ◌≡◌, ◌≢◌, refl, arith, List, [], ◌∷◌}
use nanotins.Shared.{none, some, true, false}
use nanotins.Pcap.{Kind, BlockRef, rd32}
use nanotins.Pcap.Readers.{word32, pad4-arith, rd32-word32}
use nanotins.Pcap.Readers
use nanotins.Pcap.Scan.{ScanResult, scan_window, initial_state}
use nanotins.Pcap.Scan.Window
use nanotins.Pcap.Parse.{parse_shb, parse_idb, parse_epb, epb_options_offset}
use nanotins.Pcap.Parse.Safety
use nanotins.Pcap.Parse.Overrun

-- A little-endian section header of 28 bytes with no options.
abbrev section_bytes : List ℕ
section_bytes =
    0x0A ∷ 0x0D ∷ 0x0D ∷ 0x0A ∷ 28 ∷ 0 ∷ 0 ∷ 0 ∷ 0x4D ∷ 0x3C ∷ 0x2B ∷ 0x1A ∷ 1 ∷ 0 ∷ 0 ∷ 0 ∷ 255
    ∷ 255 ∷ 255 ∷ 255 ∷ 255 ∷ 255 ∷ 255 ∷ 255 ∷ 28 ∷ 0 ∷ 0 ∷ 0 ∷ []

rd32_value_example :
    (rd32 section_bytes 8 true ≡ some 0x1A2B3C4D) × (rd32 section_bytes 8 false ≡ some 0x4D3C2B1A)
rd32_value_example = Readers.rd32_value section_bytes 8 (omega arith) (omega arith)

scan_window-Sound_example :
    (r : ScanResult) × (scan_window initial_state section_bytes [] true ≡ some r)
    × Window.Sound section_bytes [] true r
scan_window-Sound_example =
    Window.scan_window-Sound initial_state section_bytes [] true (omega arith)

abbrev section_ref : BlockRef
section_ref = record {
  file_offset = 0;
  len = 28;
  type_or_link = 0x0A0D0D0A;
  kind = Kind.shb;
  little_endian = true;
}

section_fits : epb_options_offset (word32 section_bytes 20 true) ≢ 2 ^ 32 - 4
section_fits = omega (arith, pad4-arith 0xFFFF_FFFF)

parse-ne-none_example :
    (parse_shb section_bytes section_ref ≢ none)
    × (parse_idb section_bytes section_ref ≢ none)
    × (parse_epb section_bytes section_ref ≢ none)
parse-ne-none_example =
    Safety.parse-ne-none section_bytes section_ref (omega arith) (omega arith)
      (λ kind long. section_fits)

-- A packet block of 32 bytes whose captured length is 0xFFFFFFE0.
abbrev crafted : List ℕ
crafted =
    6 ∷ 0 ∷ 0 ∷ 0 ∷ 32 ∷ 0 ∷ 0 ∷ 0 ∷ 0 ∷ 0 ∷ 0 ∷ 0 ∷ 0 ∷ 0 ∷ 0 ∷ 0 ∷ 0 ∷ 0 ∷ 0 ∷ 0 ∷ 0xE0 ∷ 0xFF
    ∷ 0xFF ∷ 0xFF ∷ 0 ∷ 0 ∷ 0 ∷ 0 ∷ 32 ∷ 0 ∷ 0 ∷ 0 ∷ []

abbrev crafted_ref : BlockRef
crafted_ref = record {
  file_offset = 0;
  len = 32;
  type_or_link = 6;
  kind = Kind.epb;
  little_endian = true;
}

crafted_caplen : rd32 crafted 20 true ≡ some 0xFFFF_FFE0
crafted_caplen = rd32-word32 crafted 20 true (omega arith)

parse_epb_overruns_example : parse_epb crafted crafted_ref ≡ none
parse_epb_overruns_example =
    Overrun.parse_epb_overruns crafted crafted_ref 0xFFFF_FFE0 refl (omega arith) (omega arith)
      (omega arith) (omega arith) (omega arith) crafted_caplen (omega arith) (omega arith)
