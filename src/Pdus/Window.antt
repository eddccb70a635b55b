-- ===== src/Pdus/Window.antt =====
-- nanotins/include/nanotins/protocol_decode_bulk.hpp: the decode of a window of packets in bulk, and
-- the serial decode of the same packets. The runner's order of the kernels is a parameter, and the
-- optional trailers are left out (`trailers` is null).
use nanotins.Shared.{ℕ, ◌+◌, List, [], ◌∷◌, Option, some, leb, if◌then◌else◌, ◌>>=◌, replicate}
use nanotins.Shared.Bits.{u64}
use nanotins.Bulk.{PacketPasses, decode_all, decode_bulk}
use nanotins.Pdus.{Pdu, size_of, Bytes, empty_bytes, advance_ptr}
use nanotins.Pdus.Columns.{pdu_key}
use nanotins.Pdus.Layers.{PduRow, DecodedPdus}
use nanotins.Pdus.Walk.{decode_packet, count_packet, scatter_packet}

-- The entries of the arrays `link_type`, `poff` and `psize` at one index.
pub record PacketRef : Type 0 where
  pub link_type : ℕ
  pub off : ℕ
  pub size : ℕ

pub record WindowPacket : Type 0 where
  pub packet_id : ℕ
  pub ref : PacketRef

-- Packet `i` has the id `pid_base + i`.
unfoldable pub numbered : (pid_base : ℕ) → List PacketRef → List WindowPacket
numbered pid_base [] = []
numbered pid_base (r ∷ refs) =
    record { packet_id = pid_base; ref = r } ∷ numbered (u64 (pid_base + 1)) refs

-- The bytes of a packet, none when it does not fit the window. The sum is a uint64_t.
unfoldable pub packet_bytes : Bytes → PacketRef → Bytes
packet_bytes window r =
    if leb (u64 (r.off + r.size)) window.len
    then record { ptr = advance_ptr window.ptr r.off; len = r.size }
    else empty_bytes

module _ (mem : List ℕ) (window : Bytes) where
  abbrev pub window_passes : PacketPasses WindowPacket Pdu PduRow
  window_passes = record {
    decode =
        λ p out. decode_packet mem p.packet_id (p.ref).link_type (packet_bytes window p.ref) out;
    count = λ p. count_packet mem (p.ref).link_type (packet_bytes window p.ref);
    scatter = λ p base sink.
        scatter_packet mem p.packet_id (p.ref).link_type (packet_bytes window p.ref) base sink
        >>= λ t. some t.0;
    blank = λ k. (0, replicate (size_of k) 0);
  }

  -- decode_packet on each packet in turn.
  abbrev pub decode_serially : (pid_base : ℕ) → List PacketRef → DecodedPdus → Option DecodedPdus
  decode_serially pid_base refs out = decode_all window_passes (numbered pid_base refs) out

  unfoldable pub decode_window :
      (pid_base : ℕ) → List PacketRef → (order : List ℕ) → DecodedPdus → Option DecodedPdus
  decode_window pid_base [] order out = some out
  decode_window pid_base (r ∷ refs) order out =
      decode_bulk window_passes (numbered pid_base (r ∷ refs)) order out
