-- ===== src/Tests/Ipv6Runs.antt =====
-- The children of IPv6 extension headers: the theorems at a segment routing header with one segment,
-- and at an options header that claims more bytes than the packet has.
use nanotins.Shared.{◌%◌}
use nanotins.Shared.{
  ℕ, ◌+◌, ◌≤◌, ◌<◌, ◌^◌, ◌≡◌, refl, arith, List, [], ◌∷◌, ◌++◌, length, All, map, Option, some,
  ◌>>=◌,
}
use nanotins.Shared.{◌==◌, if◌then◌else◌, Bool-cases, inl, inr}
use nanotins.Shared.Buffer.{byte_at}
use std.Path.{fun_ext}
use nanotins.WireSpec.{view, read_field, read_scalar_at, big_loop, read_bytes, number}
use nanotins.Tlv.{TlvRecord, repeat_at}
use nanotins.Bulk.{Counts, Tables, put, push, append_row}
use nanotins.Dag.{
  Node, ipv6_routing, walk, walk_loop, dispatch_node, next, advance, match_edges, match_from,
}
use nanotins.Dag.Nodes.{node_id, node_key}
use nanotins.Dag.Decode.{Row, DagPacket, dag_decode_packet, read_fields, dag_decode_bulk}
use nanotins.Dag.Children.{fold_list}
use nanotins.Dag.Children.Visits.{decode_with_children, decode_all_with_children}
use nanotins.Dag.Children.Ipv6.{
  Ipv6ChildTable, srh_segment, opt, Ipv6Row, segment_row, contained_row, table_id, ipv6_table_key,
  Ipv6ChildTables, Takes, for_each_srh_child, for_each_opt, visit_segments, visit_region,
  emit_srh_children, emit_opt_children, emit_ipv6, ipv6_visits, ipv6_children_bulk,
  dag_decode_packet_with_children, count_packet_ipv6_children,
}
use nanotins.Dag.Children.Ipv6.Rows.{IsSegmentRow, contained}
use nanotins.Dag.Children.Ipv6.Regions
use nanotins.Dag.Children.Ipv6.Regions.{Segment, seen_segment, seen_record}
use nanotins.Dag.Children.Ipv6.Emission
use nanotins.Dag.Children.Ipv6.Agreement

abbrev srh : List ℕ
srh =
    59 ∷ 2 ∷ 4 ∷ 0 ∷ 0 ∷ 0 ∷ 0 ∷ 0 ∷ 1 ∷ 2 ∷ 3 ∷ 4 ∷ 5 ∷ 6 ∷ 7 ∷ 8 ∷ 9 ∷ 10 ∷ 11 ∷ 12 ∷ 13 ∷ 14 ∷ 15
    ∷ 16 ∷ []

abbrev short_options : List ℕ
short_options = 59 ∷ 9 ∷ 5 ∷ 2 ∷ 0 ∷ 0 ∷ 1 ∷ 0 ∷ []

abbrev no_kids : Ipv6ChildTables
no_kids n = []

for_each_srh_child-fold_list_example :
    (segs : List Segment) × (recs : List TlvRecord) × ((S : Type 0)
        (on_seg on_tlv : S → ℕ → ℕ → Option S) (s : S)
      → for_each_srh_child srh 0 on_seg on_tlv s
        ≡ (fold_list (seen_segment on_seg) s segs >>= λ s'. fold_list (seen_record on_tlv) s' recs))
    × All (λ g. g.1 + 16 ≤ length srh) segs
for_each_srh_child-fold_list_example = Regions.for_each_srh_child-fold_list srh 0 (omega arith)

emit_srh_children-grown_example :
    (segs : List Ipv6Row) × (recs : List TlvRecord) × (kids' : Ipv6ChildTables) × (emit_srh_children
        7 srh 0 0 no_kids
      ≡ some kids')
    × (kids' srh_segment ≡ no_kids srh_segment ++ segs)
    × (kids' opt ≡ no_kids opt ++ map (contained 7 43) recs)
    × All (IsSegmentRow srh 7 0) segs
emit_srh_children-grown_example = Emission.emit_srh_children-grown 7 srh 0 0 no_kids (omega arith)

emit_opt_children-grown_example :
    (recs : List TlvRecord) × (kids' : Ipv6ChildTables) × (emit_opt_children 7 short_options 0 60
        no_kids
      ≡ some kids')
    × (kids' srh_segment ≡ no_kids srh_segment)
    × (kids' opt ≡ no_kids opt ++ map (λ r. contained_row 7 60 r.type r.len) recs)
    × ((S : Type 0) (on_opt : S → ℕ → ℕ → Option S) (s : S)
        → for_each_opt short_options 0 on_opt s ≡ fold_list (seen_record on_opt) s recs)
emit_opt_children-grown_example =
    Emission.emit_opt_children-grown 7 short_options 0 60 no_kids (omega arith)

-- A packet that starts with the segment routing header.
abbrev srh_packet : DagPacket
srh_packet = record { bytes = srh; packet_id = 7 }

abbrev no_tables : Tables Node Row
no_tables n = []

count-ipv6_children_example :
    (t : Tables Node Row) × (k : Ipv6ChildTables) × (c : Counts Ipv6ChildTable) × (dag_decode_packet
        ipv6_routing srh_packet no_tables
      ≡ some t)
    × (dag_decode_packet_with_children ipv6_routing srh_packet no_tables no_kids ≡ some (t, k))
    × (count_packet_ipv6_children ipv6_routing srh_packet.bytes ≡ some c)
    × ((n : Ipv6ChildTable)
        → (new : List Ipv6Row) × (k n ≡ no_kids n ++ new)
          × (c n ≡ length new % 2 ^ 32)
          × All (Takes n) new)
count-ipv6_children_example =
    Agreement.count-ipv6_children ipv6_routing srh_packet no_tables no_kids

abbrev srh_row : Row
srh_row = (7, number 59 ∷ number 2 ∷ number 4 ∷ number 0 ∷ number 0 ∷ number 0 ∷ number 0 ∷ [])

abbrev srh_tables : Tables Node Row
srh_tables n = if 12 == node_id n then srh_row ∷ srh_row ∷ [] else []

abbrev srh_child : Ipv6Row
srh_child =
    segment_row 7 0 0 (1 ∷ 2 ∷ 3 ∷ 4 ∷ 5 ∷ 6 ∷ 7 ∷ 8 ∷ 9 ∷ 10 ∷ 11 ∷ 12 ∷ 13 ∷ 14 ∷ 15 ∷ 16 ∷ [])

abbrev srh_kids : Ipv6ChildTables
srh_kids n = if 0 == table_id n then srh_child ∷ srh_child ∷ [] else []

-- Two packets decoded with their children, one after the other.
decodes :
    decode_all_with_children ipv6_visits ipv6_routing
      (srh_packet ∷ srh_packet ∷ [])
      no_tables
      no_kids
    ≡ some (srh_tables, srh_kids)
unfolding decode_all_with_children decode_with_children emit_ipv6 for_each_srh_child visit_segments
    visit_region repeat_at walk walk_loop dispatch_node next advance match_edges match_from view
    read_field read_scalar_at big_loop read_bytes byte_at put read_fields push append_row
decodes = λ i. some (fixed i, kids i)
  where
    fixed :
        (λ n.
          put ipv6_routing (srh_row ∷ srh_row ∷ []) (put ipv6_routing (srh_row ∷ []) no_tables) n)
        ≡ srh_tables
    fixed =
        fun_ext (λ n. elim (Bool-cases (12 == node_id n)) [ inl e ↦ rw e refl | inr e ↦ rw e refl ])

    kids :
        (λ n.
          put srh_segment (srh_child ∷ srh_child ∷ []) (put srh_segment (srh_child ∷ []) no_kids) n)
        ≡ srh_kids
    kids =
        fun_ext (λ n. elim (Bool-cases (0 == table_id n)) [ inl e ↦ rw e refl | inr e ↦ rw e refl ])

srh_tables_small : (n : Node) → length (srh_tables n) < 2 ^ 32
srh_tables_small n = ground arith

srh_kids_small : (n : Ipv6ChildTable) → length (srh_kids n) < 2 ^ 32
srh_kids_small n = ground arith

ipv6_children_bulk-with_children_example :
    (dag_decode_bulk ipv6_routing (srh_packet ∷ srh_packet ∷ []) (1 ∷ 0 ∷ []) no_tables
      ≡ some srh_tables)
    × (ipv6_children_bulk ipv6_routing (srh_packet ∷ srh_packet ∷ []) (0 ∷ 1 ∷ 0 ∷ []) no_kids
        ≡ some srh_kids)
ipv6_children_bulk-with_children_example =
    Agreement.ipv6_children_bulk-with_children ipv6_routing (srh_packet ∷ srh_packet ∷ [])
      (1 ∷ 0 ∷ []) (0 ∷ 1 ∷ 0 ∷ []) no_tables srh_tables no_kids srh_kids decodes srh_tables_small
      srh_kids_small (omega arith) refl (omega arith) refl
