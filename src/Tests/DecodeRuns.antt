-- ===== src/Tests/DecodeRuns.antt =====
-- The decode of packets into tables: the theorems at two packets.
use nanotins.Shared.{◌<◌, ◌^◌, ◌%◌, ◌≡◌, refl, arith, List, [], ◌∷◌, ◌++◌, length, some}
use nanotins.Dag.{Node, eth}
use nanotins.Dag.Decode.{
  Row, DagPacket, dag_decode_all, dag_decode_bulk, dag_decode_packet, count_packet_dag,
}
use nanotins.Dag.{walk, walk_loop, dispatch_node, next, advance, match_edges, match_from}
use nanotins.Bulk.{Tables, Counts, put, push, append_row, decode_all}
use nanotins.Dag.Nodes.{node_id}
use nanotins.Dag.Decode.{read_fields}
use nanotins.WireSpec.{view, read_field, read_scalar_at, big_loop, read_bytes, number, blob}
use nanotins.Shared.Buffer.{byte_at}
use nanotins.Shared.{if◌then◌else◌, ◌==◌, ap, Bool-cases, inl, inr}
use std.Path.{fun_ext}
use nanotins.Dag.Decode.Bulk
use nanotins.Bulk.Executor
use nanotins.Bulk.Executor.{bulk_for_each}
use nanotins.Bulk.Overlay.{covers}
use nanotins.Shared.{All, true}
use nanotins.Dag.Decode.Passes

-- Two Ethernet headers cut off behind the EtherType, of an unknown type.
abbrev short_frame : DagPacket
short_frame = record {
  bytes = 1 ∷ 1 ∷ 1 ∷ 1 ∷ 1 ∷ 1 ∷ 2 ∷ 2 ∷ 2 ∷ 2 ∷ 2 ∷ 2 ∷ 0x12 ∷ 0x34 ∷ [];
  packet_id = 7;
}

abbrev empty_tables : Tables Node Row
empty_tables n = []

count-dag_decode_packet_example :
    (t : Tables Node Row) × (c : Counts Node) × (dag_decode_packet eth short_frame empty_tables
      ≡ some t)
    × (count_packet_dag eth short_frame.bytes ≡ some c)
    × ((n : Node) → (new : List Row) × (t n ≡ empty_tables n ++ new) × (c n ≡ length new % 2 ^ 32))
count-dag_decode_packet_example = Passes.count-dag_decode_packet eth short_frame empty_tables

-- The tables of two packets, decoded one after the other.
abbrev ethernet_row : Row
ethernet_row =
    (7, blob (1 ∷ 1 ∷ 1 ∷ 1 ∷ 1 ∷ 1 ∷ []) ∷ blob (2 ∷ 2 ∷ 2 ∷ 2 ∷ 2 ∷ 2 ∷ []) ∷ number 0x1234 ∷ [])

abbrev decoded : Tables Node Row
decoded n = if 0 == node_id n then ethernet_row ∷ ethernet_row ∷ [] else []

decodes : dag_decode_all eth (short_frame ∷ short_frame ∷ []) empty_tables ≡ some decoded
unfolding decode_all dag_decode_packet walk walk_loop dispatch_node next advance match_edges
    match_from view read_field read_scalar_at big_loop read_bytes byte_at put read_fields push
    append_row
decodes =
    ap some
      (fun_ext (λ n. elim (Bool-cases (0 == node_id n)) [ inl e ↦ rw e refl | inr e ↦ rw e refl ]))

decoded_small : (n : Node) → length (decoded n) < 2 ^ 32
decoded_small n = ground arith

dag_decode_bulk-dag_decode_all_example :
    dag_decode_bulk eth (short_frame ∷ short_frame ∷ []) (1 ∷ 0 ∷ []) empty_tables ≡ some decoded
dag_decode_bulk-dag_decode_all_example =
    Bulk.dag_decode_bulk-dag_decode_all eth (short_frame ∷ short_frame ∷ []) (1 ∷ 0 ∷ [])
      empty_tables decoded decodes decoded_small (omega arith) refl

bulk_for_each-covers_example :
    All (λ i. i < 5) (bulk_for_each 2 5 (1 ∷ 0 ∷ []))
    × (covers 5 (bulk_for_each 2 5 (1 ∷ 0 ∷ [])) ≡ true)
bulk_for_each-covers_example =
    Executor.bulk_for_each-covers 2 5 (1 ∷ 0 ∷ []) (omega arith) (omega arith) (omega arith) refl
