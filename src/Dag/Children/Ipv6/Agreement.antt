-- ===== src/Dag/Children/Ipv6/Agreement.antt =====
-- ipv6_children.hpp, ipv6_children_bulk.hpp: the walk that decodes a packet with its IPv6 children,
-- the count pass and the fill in bulk agree.
use nanotins.Shared.{ℕ, ◌<◌, ◌^◌, ◌%◌, ◌≡◌, List, ◌++◌, length, All, some, true}
use nanotins.Bulk
use nanotins.Bulk.{Counts}
use nanotins.Bulk.Overlay.{covers}
use nanotins.Dag.{Node}
use nanotins.Dag.Nodes.{node_key}
use nanotins.Dag.Decode.{Row, DagPacket, dag_decode_packet, dag_decode_bulk}
use nanotins.Dag.Children.Visits.{decode_all_with_children}
use nanotins.Dag.Children.Visits.Agreement.{
  count-decode_with_children, bulk-decode_all_with_children,
}
use nanotins.Dag.Children.Ipv6.{
  Ipv6ChildTable, Ipv6Row, ipv6_table_key, Ipv6ChildTables, Takes, ipv6_visits,
  dag_decode_packet_with_children, count_packet_ipv6_children, ipv6_children_bulk,
}
use nanotins.Dag.Children.Ipv6.Passes.{ipv6-Agrees}

-- The IPv6 children of a packet: on every packet the decode with children returns; its fixed tables
-- are those of the decode without children, each child table gains rows behind the ones it holds, all
-- of the table's own kind, and the count pass answers the number of those rows, modulo 2^32.
pub count-ipv6_children :
    (root : Node) (p : DagPacket) (tabs : Bulk.Tables Node Row) (kids : Ipv6ChildTables)
    → (t : Bulk.Tables Node Row) × (k : Ipv6ChildTables) × (c : Counts Ipv6ChildTable)
      × (dag_decode_packet root p tabs ≡ some t)
      × (dag_decode_packet_with_children root p tabs kids ≡ some (t, k))
      × (count_packet_ipv6_children root p.bytes ≡ some c)
      × ((n : Ipv6ChildTable)
          → (new : List Ipv6Row) × (k n ≡ kids n ++ new)
            × (c n ≡ length new % 2 ^ 32)
            × All (Takes n) new)
count-ipv6_children = count-decode_with_children ipv6_visits ipv6-Agrees

-- The IPv6 children in bulk: when every fixed table and every child table that the decode of the
-- packets with children, one after the other, fills is shorter than 2^32 rows, then for any orders in
-- which the executors run the kernels, each of which names each packet at least once and nothing
-- else, the fill in bulk of the fixed tables and the fill in bulk of the child tables run without a
-- fault and leave the same tables.
pub ipv6_children_bulk-with_children :
    (root : Node) (pkts : List DagPacket) (order order' : List ℕ) (tabs t : Bulk.Tables Node Row)
    (kids k : Ipv6ChildTables)
    → decode_all_with_children ipv6_visits root pkts tabs kids ≡ some (t, k)
    → ((n : Node) → length (t n) < 2 ^ 32)
    → ((n : Ipv6ChildTable) → length (k n) < 2 ^ 32)
    → All (λ j. j < length pkts) order
    → covers (length pkts) order ≡ true
    → All (λ j. j < length pkts) order'
    → covers (length pkts) order' ≡ true
    → (dag_decode_bulk root pkts order tabs ≡ some t)
      × (ipv6_children_bulk root pkts order' kids ≡ some k)
ipv6_children_bulk-with_children = bulk-decode_all_with_children ipv6_visits ipv6-Agrees
