-- ===== src/Tests/ChildrenRuns.antt =====
-- The child tables of IPv4 options: the theorems at a packet with two options.
use nanotins.Shared.{drop, ◌<◌, ◌==◌, if◌then◌else◌, Bool-cases, inl, inr}
use std.Path.{fun_ext}
use nanotins.Dag.Nodes.{node_id, node_key}
use nanotins.Shared.{◌%◌, ◌^◌, ◌≡◌, refl, arith, List, [], ◌∷◌, ◌++◌, length, replicate, some}
use nanotins.Shared.Buffer.{byte_at}
use nanotins.WireSpec.{view, read_field, read_scalar_at, big_loop, read_bytes, number, blob}
use nanotins.Tlv
use nanotins.Tlv.{next_at, next_typed, next_option_ipv4}
use nanotins.Dag.{
  Node, eth, ipv4, walk, walk_loop, dispatch_node, next, advance, match_edges, match_from,
}
use nanotins.Bulk.{Tables, Counts, put, push, append_row}
use nanotins.Dag.Decode.{Row, DagPacket, read_fields, dag_decode_packet, dag_decode_bulk}
use nanotins.Dag.Children.{visit_records}
use nanotins.Dag.Children.Visits.{decode_with_children, decode_all_with_children}
use nanotins.Dag.Children.Ipv4.{
  Ipv4ChildTable, opt, ipv4_table_key, OptRow, Ipv4ChildTables, for_each_ipv4_opt, at_ipv4,
  ipv4_visits, dag_decode_packet_with_ipv4_children, count_packet_ipv4_children,
  scatter_packet_ipv4_children, ipv4_children_bulk,
}
use nanotins.Dag.Children.Ipv4.Agreement

-- An Ethernet frame with an IPv4 header whose options are NOP and one of type 130 and length 3.
abbrev optioned : DagPacket
optioned = record {
  bytes =
      replicate 12 1
      ++ (0x08
          ∷ 0x00
          ∷ 0x46
          ∷ 0
          ∷ 0
          ∷ 24
          ∷ 0
          ∷ 0
          ∷ 0
          ∷ 0
          ∷ 64
          ∷ 0
          ∷ 0
          ∷ 0
          ∷ (replicate 8 10 ++ (1 ∷ 130 ∷ 3 ∷ 9 ∷ [])));
  packet_id = 7;
}

abbrev no_tables : Tables Node Row
no_tables n = []

abbrev no_kids : Ipv4ChildTables
no_kids n = []

abbrev option_rows : List OptRow
option_rows = (7, 1, 1) ∷ (7, 130, 3) ∷ []

abbrev zero_row : OptRow
zero_row = (0, 0, 0)

count-ipv4_children_example :
    (t : Tables Node Row) × (k : Ipv4ChildTables) × (c : Counts Ipv4ChildTable) × (dag_decode_packet
        eth optioned no_tables
      ≡ some t)
    × (dag_decode_packet_with_ipv4_children eth optioned no_tables no_kids ≡ some (t, k))
    × (count_packet_ipv4_children eth optioned.bytes ≡ some c)
    × ((n : Ipv4ChildTable)
        → (new : List OptRow) × (k n ≡ no_kids n ++ new) × (c n ≡ length new % 2 ^ 32))
count-ipv4_children_example = Agreement.count-ipv4_children eth optioned no_tables no_kids

-- A packet that starts with the IPv4 header.
abbrev bare : DagPacket
bare = record { bytes = drop 14 optioned.bytes; packet_id = 7 }

abbrev ipv4_row : Row
ipv4_row = (
  7,
  number 4
      ∷ number 6
      ∷ number 0
      ∷ number 0
      ∷ number 24
      ∷ number 0
      ∷ number 0
      ∷ number 0
      ∷ number 64
      ∷ number 0
      ∷ number 0
      ∷ blob (10 ∷ 10 ∷ 10 ∷ 10 ∷ [])
      ∷ blob (10 ∷ 10 ∷ 10 ∷ 10 ∷ [])
      ∷ [],
)

abbrev ipv4_tables : Tables Node Row
ipv4_tables n = if 2 == node_id n then ipv4_row ∷ [] else []

abbrev ipv4_kids : Ipv4ChildTables
ipv4_kids n = option_rows

each_kid :
    (n : Ipv4ChildTable) → put opt option_rows (put opt ((7, 1, 1) ∷ []) no_kids) n ≡ ipv4_kids n
unfolding put
each_kid opt = refl

decodes_options :
    dag_decode_packet_with_ipv4_children ipv4 bare no_tables no_kids ≡ some (ipv4_tables, ipv4_kids)
unfolding decode_with_children for_each_ipv4_opt at_ipv4 visit_records Tlv.next next_at next_typed
    next_option_ipv4 walk walk_loop dispatch_node next advance match_edges match_from view
    read_field read_scalar_at big_loop read_bytes byte_at put read_fields push append_row
decodes_options = λ i. some (fixed i, kids i)
  where
    fixed : (λ n. put ipv4 (ipv4_row ∷ []) no_tables n) ≡ ipv4_tables
    fixed =
        fun_ext (λ n. elim (Bool-cases (2 == node_id n)) [ inl e ↦ rw e refl | inr e ↦ rw e refl ])

    kids : (λ n. put opt option_rows (put opt ((7, 1, 1) ∷ []) no_kids) n) ≡ ipv4_kids
    kids = fun_ext each_kid

decodes_all :
    decode_all_with_children ipv4_visits ipv4 (bare ∷ []) no_tables no_kids
    ≡ some (ipv4_tables, ipv4_kids)
unfolding decode_all_with_children
decodes_all = rw decodes_options refl

ipv4_tables_small : (n : Node) → length (ipv4_tables n) < 2 ^ 32
ipv4_tables_small n = ground arith

scatter-ipv4_children_example :
    (out : Ipv4ChildTables) × (scatter_packet_ipv4_children ipv4 bare
        (λ n. 1)
        (λ n. (zero_row ∷ []) ++ ((zero_row ∷ zero_row ∷ []) ++ (zero_row ∷ [])))
      ≡ some out)
    × ((n : Ipv4ChildTable) → out n ≡ (zero_row ∷ []) ++ (option_rows ++ (zero_row ∷ [])))
scatter-ipv4_children_example =
    Agreement.scatter-ipv4_children ipv4 bare no_tables ipv4_tables ipv4_kids (λ n. zero_row ∷ [])
      (λ n. zero_row ∷ zero_row ∷ []) (λ n. zero_row ∷ []) decodes_options (λ n. refl)
      (λ n. omega arith)

ipv4_children_bulk-with_children_example :
    (dag_decode_bulk ipv4 (bare ∷ []) (0 ∷ []) no_tables ≡ some ipv4_tables)
    × (ipv4_children_bulk ipv4 (bare ∷ []) (0 ∷ 0 ∷ []) no_kids ≡ some ipv4_kids)
ipv4_children_bulk-with_children_example =
    Agreement.ipv4_children_bulk-with_children ipv4 (bare ∷ []) (0 ∷ []) (0 ∷ 0 ∷ []) no_tables
      ipv4_tables no_kids ipv4_kids decodes_all ipv4_tables_small (λ n. omega arith) (omega arith)
      refl (omega arith) refl
