-- ===== src/Tests/PduRuns.antt =====
-- The struct overlay decode: the theorems at two cut-off Ethernet frames.
use nanotins.Shared.{ℕ, ◌<◌, ◌^◌, ◌≡◌, refl, arith, List, [], ◌∷◌, length, Option, some, All}
use nanotins.Shared.{if◌then◌else◌, ◌==◌, ap, Bool-cases, inl, inr, ◌>>=◌}
use std.Path.{fun_ext}
use nanotins.Shared.Buffer.{byte_at}
use nanotins.WireSpec.{read_bytes}
use nanotins.Bulk.{decode_all, append_row, push, put}
use nanotins.Bulk.Rows.{run_rows}
use nanotins.Pdus.{Pdu, Bytes, overlay, host, member_bytes, word_host, size_of, subspan}
use nanotins.Pdus.Columns.{column_id, pdu_key}
use nanotins.Pdus.Layers.{PduRow, DecodedPdus, add_pdu}
use nanotins.Pdus.Walk.{
  WalkResult, walk_packet, walk_l2, vlan_walk, walk_after_l2, walk_l3, walk_after_l3, decode_packet,
}
use nanotins.Pdus.Chain
use nanotins.Pdus.Chain.{decode_layers}
use nanotins.Pdus.Trace
use nanotins.Pdus.Trace.{Header}
use nanotins.Pdus.Window.{PacketRef, numbered, packet_bytes, decode_serially, decode_window}
use nanotins.Pdus.Agreement
use nanotins.Pdus.Remainder
use nanotins.Shared.{write_at-zero}
use nanotins.Bulk.{scatter_row}
use nanotins.Pdus.Walk.{scatter_packet, no_l4}
use nanotins.Pdus.{ethernet}

-- A frame of an unknown EtherType.
abbrev frame : List ℕ
frame = 1 ∷ 1 ∷ 1 ∷ 1 ∷ 1 ∷ 1 ∷ 2 ∷ 2 ∷ 2 ∷ 2 ∷ 2 ∷ 2 ∷ 0x12 ∷ 0x34 ∷ []

abbrev frame_bytes : Bytes
frame_bytes = record { ptr = some 0; len = 14 }

abbrev no_pdus : DecodedPdus
no_pdus p = []

walk_packet-decode_layers_example :
    walk_packet frame (add_pdu 7) 1 frame_bytes no_pdus
    ≡ decode_layers frame 7 1 frame_bytes no_pdus
walk_packet-decode_layers_example = Chain.walk_packet-decode_layers frame 7 1 frame_bytes no_pdus

walk_packet-run_rows_example :
    (hs : List Header) × (r : WalkResult) × ((S : Type 0) (visit : S → Pdu → List ℕ → Option S)
        (s : S)
      → walk_packet frame visit 1 frame_bytes s ≡ (run_rows visit s hs >>= λ s'. some (s', r)))
    × All (λ h. length h.1 ≡ size_of h.0) hs
walk_packet-run_rows_example = Trace.walk_packet-run_rows frame 1 frame_bytes (omega arith)

-- The frame twice, in one window.
abbrev two_refs : List PacketRef
two_refs =
    record { link_type = 1; off = 0; size = 14 } ∷ record { link_type = 1; off = 0; size = 14 } ∷ []

abbrev two_decoded : DecodedPdus
two_decoded p = if 0 == column_id p then (3, frame) ∷ (4, frame) ∷ [] else []

two_decodes : decode_serially frame frame_bytes 3 two_refs no_pdus ≡ some two_decoded
unfolding decode_all numbered packet_bytes decode_packet walk_packet walk_l2 vlan_walk walk_after_l2
    walk_l3 walk_after_l3 overlay read_bytes byte_at host member_bytes word_host subspan put push
    append_row
two_decodes =
    ap some (
      fun_ext (λ p. elim (Bool-cases (0 == column_id p)) [ inl e ↦ rw e refl | inr e ↦ rw e refl ]))

two_decoded_small : (p : Pdu) → length (two_decoded p) < 2 ^ 32
two_decoded_small p = ground arith

decode_window-decode_serially_example :
    decode_window frame frame_bytes 3 two_refs (1 ∷ 0 ∷ []) no_pdus ≡ some two_decoded
decode_window-decode_serially_example =
    Agreement.decode_window-decode_serially frame frame_bytes (omega arith) 3 two_refs (1 ∷ 0 ∷ [])
      no_pdus two_decoded (omega arith, (omega arith, tt)) two_decodes two_decoded_small
      (omega arith) refl

-- One slot for the Ethernet header.
abbrev one_slot : DecodedPdus
one_slot p = if 0 == column_id p then (0, []) ∷ [] else []

scattered :
    scatter_packet frame 7 1 frame_bytes (λ p. 0) one_slot
    ≡ some (put ethernet ((7, frame) ∷ []) one_slot, no_l4)
unfolding scatter_packet scatter_row walk_packet walk_l2 vlan_walk walk_after_l2 walk_l3
    walk_after_l3 overlay read_bytes byte_at host member_bytes word_host subspan
scattered = rw (write_at-zero {A = PduRow} (0, []) [] (7, frame)) refl

scatter_packet-decode_layers_example :
    (out' : DecodedPdus) × (decode_layers frame 7 1 frame_bytes no_pdus ≡ some (out', no_l4))
scatter_packet-decode_layers_example =
    Remainder.scatter_packet-decode_layers frame 7 1 frame_bytes (λ p. 0) one_slot
      (put ethernet ((7, frame) ∷ []) one_slot) no_pdus no_l4 (omega arith) scattered
