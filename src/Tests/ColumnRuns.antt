-- ===== src/Tests/ColumnRuns.antt =====
-- The column loop over packet blocks: the theorems at one block, and at a block that does not parse.
use nanotins.Shared.{ℕ, ◌≡◌, refl, arith, List, [], ◌∷◌, ◌++◌, some, none, map, length, true}
use nanotins.Shared.Buffer.{byte_at}
use nanotins.Pcap.{Kind, BlockRef, EpbView, rd32, pad4}
use nanotins.Pcap.Options.{next_option, options_loop, for_options}
use nanotins.Pcap.Parse.{parse_epb, parse_packet_block, epb_options}
use nanotins.Pcap.Columns
use nanotins.Pcap.Columns.{EpbRow, failed_at, row_of, parse_epbs_bulk}

-- A packet block of 32 bytes without data.
abbrev packet_bytes : List ℕ
packet_bytes =
    6 ∷ 0 ∷ 0 ∷ 0 ∷ 32 ∷ 0 ∷ 0 ∷ 0 ∷ 2 ∷ 0 ∷ 0 ∷ 0 ∷ 0 ∷ 0 ∷ 0 ∷ 0 ∷ 5 ∷ 0 ∷ 0 ∷ 0 ∷ 0 ∷ 0 ∷ 0 ∷ 0
    ∷ 60 ∷ 0 ∷ 0 ∷ 0 ∷ 32 ∷ 0 ∷ 0 ∷ 0 ∷ []

abbrev packet_ref : BlockRef
packet_ref = record {
  file_offset = 0;
  len = 32;
  type_or_link = 6;
  kind = Kind.epb;
  little_endian = true;
}

-- A reference past the end of the bytes.
abbrev outside_ref : BlockRef
outside_ref = record {
  file_offset = 8;
  len = 32;
  type_or_link = 6;
  kind = Kind.epb;
  little_endian = true;
}

parses : (v : EpbView) × (parse_epb packet_bytes packet_ref ≡ some (some v))
unfolding parse_epb parse_packet_block epb_options for_options options_loop next_option rd32 pad4
    byte_at
parses = (_, refl)

fails : parse_epb packet_bytes outside_ref ≡ some none
unfolding parse_epb
fails = refl

abbrev zero_row : EpbRow
zero_row = record {
  interface_id = 0;
  ts_raw = 0;
  caplen = 0;
  origlen = 0;
  payload_off = 0;
  payload_size = 0;
  epb_flags = 0;
}

parse_epbs_bulk-views_example :
    parse_epbs_bulk packet_bytes (packet_ref ∷ []) ((zero_row ∷ []) ++ (zero_row ∷ []))
    ≡ some (map row_of (parses.0 ∷ []) ++ (zero_row ∷ []), none)
parse_epbs_bulk-views_example =
    Columns.parse_epbs_bulk-views packet_bytes (packet_ref ∷ []) (parses.0 ∷ []) (zero_row ∷ [])
      (zero_row ∷ []) (parses.1, tt) refl

parse_epbs_bulk-failed_at_example :
    parse_epbs_bulk packet_bytes
      ((packet_ref ∷ []) ++ (outside_ref ∷ []))
      ((zero_row ∷ []) ++ (zero_row ∷ []))
    ≡ some (
      map row_of (parses.0 ∷ []) ++ (zero_row ∷ []),
      some (failed_at (length (map row_of (parses.0 ∷ [])))),
    )
parse_epbs_bulk-failed_at_example =
    Columns.parse_epbs_bulk-failed_at packet_bytes (packet_ref ∷ []) outside_ref [] (parses.0 ∷ [])
      (zero_row ∷ []) (zero_row ∷ []) (parses.1, tt) fails refl (omega arith)
