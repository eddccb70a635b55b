-- ===== src/Pcap/Scan.antt =====
-- pcap_blocks.hpp, phase A: the sequential boundary scan of one window of a capture.
pub mod Rounds
pub mod Total
pub mod Window
use nanotins.Shared.{ℕ, zero, suc, ◌+◌, List, [], ◌∷◌, ◌++◌, length}
use nanotins.Shared.{Option, none, some, Bool, true, false, not, ◌&&◌, ltb, leb, ◌==◌}
use nanotins.Shared.{if◌then◌else◌, ◌>>=◌}
use nanotins.Shared.Bits.{u32}
use nanotins.Pcap.{
  Kind, BlockRef, ScanState, block_type_shb, byte_order_magic, rd32, is_pcap_magic,
  is_pcap_magic_le, classify_block_type,
}

-- The messages that `error` is set to; `scan_window` returns false exactly where it sets one.
pub data ScanError : Type 0 where
  file_too_short short_global_header bad_magic bad_block_length trailing_truncated_block : ScanError

-- What a call leaves behind: the state, the appended output, `consumed`, and the error if any.
pub record ScanResult : Type 0 where
  pub state : ScanState
  pub out : List BlockRef
  pub consumed : ℕ
  pub error : Option ScanError

-- Where a loop over the window stopped.
pub record LoopEnd : Type 0 where
  pub state : ScanState
  pub pos : ℕ
  pub out : List BlockRef
  pub error : Option ScanError

pub record_ref : ScanState → (pos total : ℕ) → BlockRef
record_ref st pos total = record {
  file_offset = pos;
  len = u32 total;
  type_or_link = st.pcap_link_type;
  kind = Kind.pcap_record;
  little_endian = st.little_endian;
}

-- The loop over legacy pcap records.
pub record_loop : ℕ → List ℕ → ScanState → ℕ → List BlockRef → Option LoopEnd
record_loop zero file st pos out = none
record_loop (suc fuel) file st pos out = elim (leb (pos + 16) (length file)) [
  | false ↦ some (record { state = st; pos = pos; out = out; error = none })
  | true ↦ rd32 file (pos + 8) st.little_endian >>= λ incl_len.
      elim (ltb (length file) (pos + (16 + incl_len))) [
        | true ↦ some (record { state = st; pos = pos; out = out; error = none })
        | false ↦
            record_loop fuel file st (pos + (16 + incl_len))
              (out ++ (record_ref st pos (16 + incl_len) ∷ []))
      ]
]

-- The header of the pcapng block at `pos`: its type, total length, byte order, and whether it is a
-- section header, whose byte-order magic decides the byte order.
pub record BlockHeader : Type 0 where
  pub type : ℕ
  pub total : ℕ
  pub le : Bool
  pub is_shb : Bool

pub block_header : List ℕ → Bool → ℕ → Option BlockHeader
block_header file section_le pos = do
  lead ← rd32 file pos true
  let is_shb = lead == block_type_shb
  le ←
      if is_shb
      then (rd32 file (pos + 8) true >>= λ bom. some (bom == byte_order_magic))
      else some section_le
  type ← if is_shb then some block_type_shb else rd32 file pos le
  total ← rd32 file (pos + 4) le
  some (record { type = type; total = total; le = le; is_shb = is_shb })

pub block_ref : ℕ → BlockHeader → BlockRef
block_ref pos h = record {
  file_offset = pos;
  len = h.total;
  type_or_link = h.type;
  kind = classify_block_type h.type;
  little_endian = h.le;
}

-- The byte order is committed once the section header fits.
pub commit : ScanState → BlockHeader → ScanState
commit st h = if h.is_shb then record st { little_endian = h.le } else st

-- The loop over pcapng blocks.
pub block_loop : ℕ → List ℕ → ScanState → ℕ → List BlockRef → Option LoopEnd
block_loop zero file st pos out = none
block_loop (suc fuel) file st pos out = elim (leb (pos + 12) (length file)) [
  | false ↦ some (record { state = st; pos = pos; out = out; error = none })
  | true ↦ block_header file st.little_endian pos >>= λ h. elim (ltb h.total 12) [
    | true ↦ some (record { state = st; pos = pos; out = out; error = some bad_block_length })
    | false ↦ elim (ltb (length file) (pos + h.total)) [
      | true ↦ some (record { state = st; pos = pos; out = out; error = none })
      | false ↦ block_loop fuel file (commit st h) (pos + h.total) (out ++ (block_ref pos h ∷ []))
    ]
  ]
]

-- A block takes 12 bytes at least and a record 16, so a round for each byte and one more are enough.
pub scan_loop : List ℕ → ScanState → ℕ → List BlockRef → Option LoopEnd
scan_loop file st pos out =
    if not st.is_pcapng
    then record_loop (suc (length file)) file st pos out
    else block_loop (suc (length file)) file st pos out

-- What the first call finds in the leading bytes.
pub data Detected : Type 0 where
  ready : ScanState → ℕ → List BlockRef → Detected
  need_more : Detected
  failed : ScanError → Detected

pub global_header_ref : ℕ → Bool → BlockRef
global_header_ref link le = record {
  file_offset = 0;
  len = 24;
  type_or_link = link;
  kind = Kind.idb;
  little_endian = le;
}

pub detect : ScanState → List ℕ → List BlockRef → Bool → Option Detected
detect st file out at_eof =
    if st.started
    then some (ready st 0 out)
    else if ltb (length file) 4
    then some (if at_eof then failed file_too_short else need_more)
    else do
      lead ← rd32 file 0 true
      if lead == block_type_shb
          then some (ready (record st { started = true; is_pcapng = true }) 0 out)
          else if is_pcap_magic lead
          then (if ltb (length file) 24
              then some (if at_eof then failed short_global_header else need_more)
              else (rd32 file 20 (is_pcap_magic_le lead) >>= λ link. some (
                  ready
                    (record {
                      started = true;
                      is_pcapng = false;
                      little_endian = is_pcap_magic_le lead;
                      pcap_link_type = link;
                    })
                    24 (out ++ (global_header_ref link (is_pcap_magic_le lead) ∷ [])))))
          else some (failed bad_magic)

-- The end of `scan_window`: `consumed` is set, and at the end of the capture a rest is an error.
pub finish : List ℕ → Bool → LoopEnd → ScanResult
finish file at_eof e = elim e.error [
  | some bad ↦ record { state = e.state; out = e.out; consumed = 0; error = some bad }
  | none ↦ record {
    state = e.state;
    out = e.out;
    consumed = e.pos;
    error = if at_eof && ltb e.pos (length file) then some trailing_truncated_block else none;
  }
]

pub scan_detected : List ℕ → ScanState → List BlockRef → Bool → Detected → Option ScanResult
scan_detected file st out at_eof (ready st' pos out') =
    scan_loop file st' pos out' >>= λ e. some (finish file at_eof e)
scan_detected file st out at_eof need_more =
    some (record { state = st; out = out; consumed = 0; error = none })
scan_detected file st out at_eof (failed bad) =
    some (record { state = st; out = out; consumed = 0; error = some bad })

pub scan_window : ScanState → List ℕ → List BlockRef → Bool → Option ScanResult
scan_window st file out at_eof = detect st file out at_eof >>= scan_detected file st out at_eof

abbrev pub initial_state : ScanState
initial_state = record {
  started = false;
  is_pcapng = false;
  little_endian = true;
  pcap_link_type = 0;
}

pub scan_blocks : List ℕ → Option ScanResult
scan_blocks file = scan_window initial_state file [] true
