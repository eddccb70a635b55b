-- ===== src/Dag/Children/SomeipSd/Agreement.antt =====
-- someip_sd.hpp, someip_sd_bulk.hpp: the walk that decodes a packet with its service discovery
-- children, the count pass and the fill in bulk agree.
use nanotins.Shared.{ℕ, ◌<◌, ◌^◌, ◌%◌, ◌≡◌, List, ◌++◌, length, All, some, true}
use nanotins.Bulk
use nanotins.Bulk.{Counts}
use nanotins.Bulk.Overlay.{covers}
use nanotins.Dag.{Node}
use nanotins.Dag.Nodes.{node_key}
use nanotins.Dag.Decode.{Row, DagPacket, dag_decode_packet, dag_decode_bulk}
use nanotins.Dag.Children.Visits.{decode_all_with_children}
use nanotins.Dag.Children.Visits.Agreement.{
  count-decode_with_children, bulk-decode_all_with_children,
}
use nanotins.Dag.Children.SomeipSd.Tables.{
  SdChildTable, SdRow, sd_table_key, SdChildTables, Takes, sd_visits,
  dag_decode_packet_with_someip_sd, count_packet_someip_sd_children, someip_sd_bulk,
}
use nanotins.Dag.Children.SomeipSd.Passes.{sd-Agrees}

-- The service discovery entries and options of a packet: on every packet the decode with children
-- returns; its fixed tables are those of the decode without children, each child table gains rows
-- behind the ones it holds, all of the table's own kind, and the count pass answers the number of
-- those rows, modulo 2^32.
pub count-someip_sd_children :
    (root : Node) (p : DagPacket) (tabs : Bulk.Tables Node Row) (kids : SdChildTables)
    → (t : Bulk.Tables Node Row) × (k : SdChildTables) × (c : Counts SdChildTable)
      × (dag_decode_packet root p tabs ≡ some t)
      × (dag_decode_packet_with_someip_sd root p tabs kids ≡ some (t, k))
      × (count_packet_someip_sd_children root p.bytes ≡ some c)
      × ((n : SdChildTable)
          → (new : List SdRow) × (k n ≡ kids n ++ new)
            × (c n ≡ length new % 2 ^ 32)
            × All (Takes n) new)
count-someip_sd_children = count-decode_with_children sd_visits sd-Agrees

-- The service discovery entries and options in bulk: when every fixed table and every child table
-- that the decode of the packets with children, one after the other, fills is shorter than 2^32 rows,
-- then for any orders in which the executors run the kernels, each of which names each packet at
-- least once and nothing else, the fill in bulk of the fixed tables and the fill in bulk of the child
-- tables run without a fault and leave the same tables.
pub someip_sd_bulk-with_children :
    (root : Node) (pkts : List DagPacket) (order order' : List ℕ) (tabs t : Bulk.Tables Node Row)
    (kids k : SdChildTables)
    → decode_all_with_children sd_visits root pkts tabs kids ≡ some (t, k)
    → ((n : Node) → length (t n) < 2 ^ 32)
    → ((n : SdChildTable) → length (k n) < 2 ^ 32)
    → All (λ j. j < length pkts) order
    → covers (length pkts) order ≡ true
    → All (λ j. j < length pkts) order'
    → covers (length pkts) order' ≡ true
    → (dag_decode_bulk root pkts order tabs ≡ some t)
      × (someip_sd_bulk root pkts order' kids ≡ some k)
someip_sd_bulk-with_children = bulk-decode_all_with_children sd_visits sd-Agrees
