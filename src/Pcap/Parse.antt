-- ===== src/Pcap/Parse.antt =====
-- pcap_blocks.hpp, phase B: the pure parse of one block. `none` is a fault, `some none` is `return
-- false`. Where the source writes its output before it returns false, the output is not modelled: a
-- caller that gets false reads no view.
pub mod Safety
pub mod Overrun
use nanotins.Shared.{ℕ, zero, suc, ◌+◌, ◌-◌, ◌%◌, ◌^◌, bit_or, List, [], ◌∷◌, ◌++◌, length}
use nanotins.Shared.{Option, none, some, Bool, true, false, not, ◌&&◌, ◌||◌, ltb, leb, ◌==◌}
use nanotins.Shared.{if◌then◌else◌, ◌>>=◌}
use nanotins.Shared.Bits.{u16, u32, u64, shl}
use nanotins.Shared.Buffer.{byte_at}
use nanotins.Pcap.{
  Kind, BlockRef, OptionCursor, BlockOption, ShbView, IdbView, EpbView, rd16, rd32, rd64, pad4,
  is_pcap_magic, magic_nanos_le, magic_nanos_be,
}
use nanotins.Pcap.Options.{for_options}

-- The enumerators of `Kind` as their values.
abbrev pub kind_value : Kind → ℕ
kind_value Kind.shb = 0
kind_value Kind.idb = 1
kind_value Kind.epb = 2
kind_value Kind.pcap_record = 3
kind_value Kind.simple_packet = 4
kind_value Kind.other = 5

abbrev pub is_kind : Kind → Kind → Bool
is_kind a b = kind_value a == kind_value b

-- `ref.file_offset + ref.length > file.size()`, a sum of uint64_t.
abbrev pub overhangs : List ℕ → BlockRef → Bool
overhangs file ref = ltb (length file) (u64 (ref.file_offset + ref.len))

abbrev pub no_options : Bool → OptionCursor
no_options le = record { start = none; size = 0; little_endian = le }

-- `a - b` on uint32_t.
abbrev pub sub32 : ℕ → ℕ → ℕ
sub32 a b = u32 (a + 2 ^ 32 - b)

pub parse_shb : List ℕ → BlockRef → Option (Option ShbView)
parse_shb file ref =
    if not (is_kind ref.kind Kind.shb) || (overhangs file ref || ltb ref.len 28)
    then some none
    else do
      major ← rd16 file (ref.file_offset + 8 + 4) ref.little_endian
      minor ← rd16 file (ref.file_offset + 8 + 6) ref.little_endian
      section_length ← rd64 file (ref.file_offset + 8 + 8) ref.little_endian
      some (
          some (record {
            major = major;
            minor = minor;
            section_length = section_length;
            options = record {
              start = some (ref.file_offset + 24);
              size = sub32 ref.len 28;
              little_endian = ref.little_endian;
            };
          }))

-- if_tsresol: the last option of code 9 with a value wins.
pub visit_ts_resol : List ℕ → ℕ → BlockOption → Option ℕ
visit_ts_resol file acc opt =
    if opt.code == 9 && leb 1 opt.len then byte_at file opt.value else some acc

-- The synthetic interface block over a legacy global header.
pub parse_global_header : List ℕ → BlockRef → ℕ → Option (Option IdbView)
parse_global_header file ref magic = do
  link ← rd32 file (ref.file_offset + 20) ref.little_endian
  snaplen ← rd32 file (ref.file_offset + 16) ref.little_endian
  some (
      some (record {
        link_type = u16 link;
        snaplen = snaplen;
        ts_resol = if magic == magic_nanos_le || magic == magic_nanos_be then 9 else 6;
        options = no_options ref.little_endian;
      }))

pub idb_options : BlockRef → OptionCursor
idb_options ref = record {
  start = some (ref.file_offset + 16);
  size = sub32 ref.len 20;
  little_endian = ref.little_endian;
}

pub parse_interface : List ℕ → BlockRef → Option (Option IdbView)
parse_interface file ref = if ltb ref.len 20 then some none else do
  link ← rd16 file (ref.file_offset + 8) ref.little_endian
  snaplen ← rd32 file (ref.file_offset + 8 + 4) ref.little_endian
  ts_resol ← for_options file (visit_ts_resol file) (idb_options ref) 6
  some (
      some (record {
        link_type = link;
        snaplen = snaplen;
        ts_resol = ts_resol;
        options = idb_options ref;
      }))

pub parse_idb : List ℕ → BlockRef → Option (Option IdbView)
parse_idb file ref =
    if not (is_kind ref.kind Kind.idb) || overhangs file ref
    then some none
    else if ref.len == 24
    then (rd32 file ref.file_offset true >>= λ magic.
        if is_pcap_magic magic
        then parse_global_header file ref magic
        else parse_interface file ref)
    else parse_interface file ref

pub parse_record : List ℕ → BlockRef → Option (Option EpbView)
parse_record file ref = if ltb ref.len 16 then some none else do
  ts_sec ← rd32 file ref.file_offset ref.little_endian
  ts_frac ← rd32 file (ref.file_offset + 4) ref.little_endian
  caplen ← rd32 file (ref.file_offset + 8) ref.little_endian
  origlen ← rd32 file (ref.file_offset + 12) ref.little_endian
  some (
      some (record {
        interface_id = 0;
        ts_raw = bit_or (shl ts_sec 32) ts_frac;
        caplen = caplen;
        origlen = origlen;
        payload_file_offset = u64 (ref.file_offset + 16);
        epb_flags = 0;
        options = no_options ref.little_endian;
      }))

-- `8U + 20U + data_padded` on uint32_t.
abbrev pub epb_options_offset : ℕ → ℕ
epb_options_offset caplen = u32 (28 + pad4 caplen)

unfoldable pub epb_options : BlockRef → ℕ → OptionCursor
epb_options ref caplen =
    let opt_off = epb_options_offset caplen in
    if leb (u32 (opt_off + 4)) ref.len
    then record {
      start = some (ref.file_offset + opt_off);
      size = sub32 (sub32 ref.len opt_off) 4;
      little_endian = ref.little_endian;
    }
    else no_options ref.little_endian

-- epb_flags: the last option of code 2 with four bytes wins.
pub visit_flags : List ℕ → Bool → ℕ → BlockOption → Option ℕ
visit_flags file le acc opt =
    if opt.code == 2 && leb 4 opt.len then rd32 file opt.value le else some acc

unfoldable pub parse_packet_block : List ℕ → BlockRef → Option (Option EpbView)
parse_packet_block file ref =
    if not (is_kind ref.kind Kind.epb) || ltb ref.len 32 then some none else do
      interface_id ← rd32 file (ref.file_offset + 8) ref.little_endian
      ts_high ← rd32 file (ref.file_offset + 12) ref.little_endian
      ts_low ← rd32 file (ref.file_offset + 16) ref.little_endian
      caplen ← rd32 file (ref.file_offset + 20) ref.little_endian
      origlen ← rd32 file (ref.file_offset + 24) ref.little_endian
      flags ← for_options file (visit_flags file ref.little_endian) (epb_options ref caplen) 0
      some (
          some (record {
            interface_id = interface_id;
            ts_raw = bit_or (shl ts_high 32) ts_low;
            caplen = caplen;
            origlen = origlen;
            payload_file_offset = u64 (ref.file_offset + 28);
            epb_flags = flags;
            options = epb_options ref caplen;
          }))

unfoldable pub parse_epb : List ℕ → BlockRef → Option (Option EpbView)
parse_epb file ref =
    if overhangs file ref
    then some none
    else if is_kind ref.kind Kind.pcap_record
    then parse_record file ref
    else parse_packet_block file ref
