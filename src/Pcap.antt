-- ===== src/Pcap.antt =====
-- nanotins/include/nanotins/pcap_blocks.hpp: the data of the pcap and pcapng layer, its byte-order
-- aware readers, and the classification of magics and block types. A file or window is the buffer
-- itself, and a pointer into it is an offset. Sums of an offset inside the buffer and a 32-bit length
-- are not wrapped: a buffer is far below 2^64 bytes.
pub mod Readers
pub mod Options
pub mod Scan
pub mod Parse
pub mod Columns
use nanotins.Shared.{ℕ, zero, suc, ◌+◌, ◌-◌, ◌%◌, ◌^◌, bit_or, bit_and, List, [], ◌∷◌}
use nanotins.Shared.{Option, none, some, Bool, true, false, ◌||◌, ◌==◌, if◌then◌else◌, ◌>>=◌}
use nanotins.Shared.Bits.{u16, u32, u64, shl}
use nanotins.Shared.Buffer.{byte_at}

pub data Kind : Type 0 where
  shb idb epb pcap_record simple_packet other : Kind

pub record BlockRef : Type 0 where
  pub file_offset : ℕ
  pub len : ℕ
  pub type_or_link : ℕ
  pub kind : Kind
  pub little_endian : Bool

-- `start` is the pointer `data`, null as `none`.
pub record OptionCursor : Type 0 where
  pub start : Option ℕ
  pub size : ℕ
  pub little_endian : Bool

pub record BlockOption : Type 0 where
  pub code : ℕ
  pub len : ℕ
  pub value : ℕ

-- `section_length` is the bit pattern of the int64_t.
pub record ShbView : Type 0 where
  pub major : ℕ
  pub minor : ℕ
  pub section_length : ℕ
  pub options : OptionCursor

pub record IdbView : Type 0 where
  pub link_type : ℕ
  pub snaplen : ℕ
  pub ts_resol : ℕ
  pub options : OptionCursor

pub record EpbView : Type 0 where
  pub interface_id : ℕ
  pub ts_raw : ℕ
  pub caplen : ℕ
  pub origlen : ℕ
  pub payload_file_offset : ℕ
  pub epb_flags : ℕ
  pub options : OptionCursor

pub record ScanState : Type 0 where
  pub started : Bool
  pub is_pcapng : Bool
  pub little_endian : Bool
  pub pcap_link_type : ℕ

abbrev pub block_type_shb : ℕ
block_type_shb = 0x0A0D0D0A

abbrev pub block_type_idb : ℕ
block_type_idb = 1

abbrev pub block_type_epb : ℕ
block_type_epb = 6

abbrev pub block_type_spb : ℕ
block_type_spb = 3

abbrev pub magic_micros_le : ℕ
magic_micros_le = 0xA1B2C3D4

abbrev pub magic_micros_be : ℕ
magic_micros_be = 0xD4C3B2A1

abbrev pub magic_nanos_le : ℕ
magic_nanos_le = 0xA1B23C4D

abbrev pub magic_nanos_be : ℕ
magic_nanos_be = 0x4D3CB2A1

abbrev pub byte_order_magic : ℕ
byte_order_magic = 0x1A2B3C4D

pub rd16 : List ℕ → ℕ → Bool → Option ℕ
rd16 mem p le = do
  a ← byte_at mem p
  b ← byte_at mem (p + 1)
  some (u16 (if le then bit_or a (shl b 8) else bit_or (shl a 8) b))

unfoldable pub rd32 : List ℕ → ℕ → Bool → Option ℕ
rd32 mem p le = do
  a ← byte_at mem p
  b ← byte_at mem (p + 1)
  c ← byte_at mem (p + 2)
  d ← byte_at mem (p + 3)
  some (
      if le
      then bit_or (bit_or (bit_or a (shl b 8)) (shl c 16)) (shl d 24)
      else bit_or (bit_or (bit_or d (shl c 8)) (shl b 16)) (shl a 24))

-- `for (k : ks) v = (v << 8) | p[k];` on a uint64_t.
pub rd64_loop : List ℕ → ℕ → List ℕ → ℕ → Option ℕ
rd64_loop mem p [] v = some v
rd64_loop mem p (k ∷ ks) v = do
  b ← byte_at mem (p + k)
  rd64_loop mem p ks (bit_or (u64 (shl v 8)) b)

abbrev pub upwards : List ℕ
upwards = 0 ∷ 1 ∷ 2 ∷ 3 ∷ 4 ∷ 5 ∷ 6 ∷ 7 ∷ []

abbrev pub downwards : List ℕ
downwards = 7 ∷ 6 ∷ 5 ∷ 4 ∷ 3 ∷ 2 ∷ 1 ∷ 0 ∷ []

pub rd64 : List ℕ → ℕ → Bool → Option ℕ
rd64 mem p le = rd64_loop mem p (if le then downwards else upwards) 0

-- `(n + 3U) & ~3U` on a uint32_t.
unfoldable pub pad4 : ℕ → ℕ
pad4 n = bit_and (u32 (n + 3)) 0xFFFF_FFFC

pub is_pcap_magic_le : ℕ → Bool
is_pcap_magic_le m = m == magic_micros_le || m == magic_nanos_le

pub is_pcap_magic : ℕ → Bool
unfolding is_pcap_magic_le
is_pcap_magic m = is_pcap_magic_le m || (m == magic_micros_be || m == magic_nanos_be)

pub classify_block_type : ℕ → Kind
classify_block_type type =
    if type == block_type_shb
    then Kind.shb
    else if type == block_type_idb
    then Kind.idb
    else if type == block_type_epb
    then Kind.epb
    else if type == block_type_spb
    then Kind.simple_packet
    else Kind.other
