-- ===== src/Dag/Decode/Bulk.antt =====
-- dag_bulk.hpp: the bulk decode against the decode packet by packet, under any order of the kernels.
use nanotins.Shared.{ℕ, ◌<◌, ◌^◌, ◌≡◌, List, length, All, All-every, some, true}
use nanotins.Bulk.{Tables}
use nanotins.Bulk.Overlay.{covers}
use nanotins.Bulk.Agreement.{decode_bulk-decode_all}
use nanotins.Dag.{Node}
use nanotins.Dag.Nodes.{node_key}
use nanotins.Dag.Decode.{Row, DagPacket, dag_decode_all, dag_decode_bulk}
use nanotins.Dag.Decode.Passes.{dag_lawful}

-- The bulk decode is the decode packet by packet: when every table that the sequential decode fills
-- is shorter than 2^32 rows, then for any order in which the executor runs the kernels, one that
-- names each packet at least once and nothing else, the count pass, the prefix sum, the resize and
-- the scatter pass run without a fault and leave the same tables, with the rows of before in front.
pub dag_decode_bulk-dag_decode_all :
    (root : Node) (pkts : List DagPacket) (order : List ℕ) (tabs result : Tables Node Row)
    → dag_decode_all root pkts tabs ≡ some result
    → ((n : Node) → length (result n) < 2 ^ 32)
    → All (λ k. k < length pkts) order
    → covers (length pkts) order ≡ true
    → dag_decode_bulk root pkts order tabs ≡ some result
dag_decode_bulk-dag_decode_all root pkts order tabs result =
    decode_bulk-decode_all (dag_lawful root) pkts order tabs result (All-every (λ p. tt) pkts)
