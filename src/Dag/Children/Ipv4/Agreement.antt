-- ===== src/Dag/Children/Ipv4/Agreement.antt =====
-- ipv4_children.hpp, ipv4_children_bulk.hpp: the decode with children, the count, the scatter and the
-- fill in bulk agree.
use nanotins.Shared.{ℕ, ◌<◌, ◌^◌, ◌%◌, ◌≡◌, List, [], ◌++◌, ◌+◌, length, All, some, true}
use nanotins.Bulk
use nanotins.Bulk.{Counts}
use nanotins.Bulk.Overlay.{covers}
use nanotins.Dag.{Node}
use nanotins.Dag.Nodes.{node_key}
use nanotins.Dag.Decode.{Row, DagPacket, dag_decode_packet, dag_decode_bulk}
use nanotins.Dag.Children.Visits.{decode_all_with_children}
use nanotins.Dag.Children.Visits.Agreement.{
  count-decode_with_children, bulk-decode_all_with_children, scatter-decode_with_children,
}
use nanotins.Dag.Children.Ipv4.{
  Ipv4ChildTable, ipv4_table_key, OptRow, Ipv4ChildTables, ipv4_visits,
  dag_decode_packet_with_ipv4_children, count_packet_ipv4_children, scatter_packet_ipv4_children,
  ipv4_children_bulk,
}
use nanotins.Dag.Children.Ipv4.Passes.{ipv4-Agrees}

-- The IPv4 options of a packet: on every packet the decode with children returns; its fixed tables
-- are those of the decode without children, the option table gains rows behind the ones it holds, and
-- the count pass answers the number of those rows, modulo 2^32.
pub count-ipv4_children :
    (root : Node) (p : DagPacket) (tabs : Bulk.Tables Node Row) (kids : Ipv4ChildTables)
    → (t : Bulk.Tables Node Row) × (k : Ipv4ChildTables) × (c : Counts Ipv4ChildTable)
      × (dag_decode_packet root p tabs ≡ some t)
      × (dag_decode_packet_with_ipv4_children root p tabs kids ≡ some (t, k))
      × (count_packet_ipv4_children root p.bytes ≡ some c)
      × ((n : Ipv4ChildTable)
          → (new : List OptRow) × (k n ≡ kids n ++ new) × (c n ≡ length new % 2 ^ 32))
count-ipv4_children root p tabs kids =
    let (t, k, c, e, both, counted, each) =
      count-decode_with_children ipv4_visits ipv4-Agrees root p tabs kids in
    (t, k, c, e, both, counted, λ n. let (new, grown, size, kinds) = each n in (new, grown, size))

-- The IPv4 options in bulk: when every fixed table and every child table that the decode of the
-- packets with children, one after the other, fills is shorter than 2^32 rows, then for any orders in
-- which the executors run the kernels, each of which names each packet at least once and nothing
-- else, the fill in bulk of the fixed tables and the fill in bulk of the child tables run without a
-- fault and leave the same tables.
pub ipv4_children_bulk-with_children :
    (root : Node) (pkts : List DagPacket) (order order' : List ℕ) (tabs t : Bulk.Tables Node Row)
    (kids k : Ipv4ChildTables)
    → decode_all_with_children ipv4_visits root pkts tabs kids ≡ some (t, k)
    → ((n : Node) → length (t n) < 2 ^ 32)
    → ((n : Ipv4ChildTable) → length (k n) < 2 ^ 32)
    → All (λ j. j < length pkts) order
    → covers (length pkts) order ≡ true
    → All (λ j. j < length pkts) order'
    → covers (length pkts) order' ≡ true
    → (dag_decode_bulk root pkts order tabs ≡ some t)
      × (ipv4_children_bulk root pkts order' kids ≡ some k)
ipv4_children_bulk-with_children = bulk-decode_all_with_children ipv4_visits ipv4-Agrees

-- The scatter writes what the decode appends: where the decode of a packet fills an empty option table
-- with `new`, the scatter from a base on replaces as many rows of a sized table by `new`, without a
-- fault, and leaves the rows before and behind. The rows up to there are fewer than 2^32.
pub scatter-ipv4_children :
    (root : Node) (p : DagPacket) (tabs t : Bulk.Tables Node Row)
    (new pre fill post : Ipv4ChildTables)
    → dag_decode_packet_with_ipv4_children root p tabs (λ n. []) ≡ some (t, new)
    → ((n : Ipv4ChildTable) → length (fill n) ≡ length (new n))
    → ((n : Ipv4ChildTable) → length (pre n) + length (new n) < 2 ^ 32)
    → (out : Ipv4ChildTables) × (scatter_packet_ipv4_children root p
          (λ n. length (pre n))
          (λ n. pre n ++ (fill n ++ post n))
        ≡ some out)
      × ((n : Ipv4ChildTable) → out n ≡ pre n ++ (new n ++ post n))
scatter-ipv4_children = scatter-decode_with_children ipv4_visits ipv4-Agrees
