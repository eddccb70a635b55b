-- ===== src/Dag/Decode/Passes.antt =====
-- dag_decode.hpp, dag_bulk.hpp: the three passes over one packet, in terms of the rows it emits.
use nanotins.Shared.{◌^◌, ◌%◌, ◌≡◌, refl, arith, List, ◌++◌, length, some}
use nanotins.Shared.Bits.{u32}
use nanotins.Bulk.{Tables, Counts, bump, append_row, scatter_row}
use nanotins.Bulk.Layout.{rows_of}
use nanotins.Bulk.Rows.{append_rows, count_rows}
use nanotins.Bulk.Scatter.{Ready, scatter_rows}
use nanotins.Bulk.Bases.{Lawful}
use nanotins.Dag.{Node}
use nanotins.Dag.Nodes.{node_key}
use nanotins.Dag.Decode.{
  Row, DagPacket, dag_decode_packet, count_packet_dag, scatter_packet_dag, dag_passes,
}
use nanotins.Dag.Decode.Emits.{Emit, emits}

module _ (root : Node) (p : DagPacket) where
  -- The rows that the packet emits.
  abbrev pub packet_rows : List Emit
  packet_rows = (emits p.packet_id p.bytes root).rows

  pub decode-rows :
      (tabs : Tables Node Row)
      → (t : Tables Node Row) × (dag_decode_packet root p tabs ≡ some t)
        × ((n : Node) → t n ≡ tabs n ++ rows_of n packet_rows)
  unfolding dag_decode_packet
  decode-rows tabs =
      let (t, run, all) = append_rows packet_rows tabs in
      (
        t,
        rw ((emits p.packet_id p.bytes root).reads (Tables Node Row) append_row tabs) (rw run),
        all,
      )

  pub count-rows :
      (c : Counts Node) × (count_packet_dag root p.bytes ≡ some c)
      × ((n : Node) → c n ≡ u32 (length (rows_of n packet_rows)))
  unfolding count_packet_dag
  count-rows =
      let (c, run, all) = count_rows packet_rows (λ n. 0) (λ n. 0) (λ n. refl) in
      (
        c,
        rw ((emits p.packet_id p.bytes root).counts (Counts Node) bump (λ n. 0)) (rw run),
        λ n. omega (arith, all n),
      )

  pub scatter-rows :
      (pre fill post : Tables Node Row) (cur : Counts Node) (tabs : Tables Node Row)
      → Ready packet_rows pre fill post cur tabs
      → (t : Tables Node Row) × (scatter_packet_dag root p cur tabs ≡ some t)
        × ((n : Node) → t n ≡ pre n ++ (rows_of n packet_rows ++ post n))
  unfolding scatter_packet_dag
  scatter-rows pre fill post cur tabs g =
      let (c, t, run, all) = scatter_rows packet_rows pre fill post cur tabs g in
      (
        t,
        rw
            ((emits p.packet_id p.bytes root).reads (Counts Node × Tables Node Row) scatter_row
              (cur, tabs))
            (rw run),
        all,
      )

abbrev pub dag_lawful : (root : Node) → Lawful (dag_passes root)
dag_lawful root = record {
  Valid = λ p. Unit;
  emits = packet_rows root;
  decode_rows = λ p tabs o. decode-rows root p tabs;
  count_rows = λ p o. count-rows root p;
  scatter_rows = λ p pre fill post cur tabs o. scatter-rows root p pre fill post cur tabs;
}

-- The count pass agrees with the decode: on every packet both run without a fault, the decode appends
-- rows to the table of each node and changes nothing else, and the count of a node is the number of
-- its rows, modulo 2^32.
pub count-dag_decode_packet :
    (root : Node) (p : DagPacket) (tabs : Tables Node Row)
    → (t : Tables Node Row) × (c : Counts Node) × (dag_decode_packet root p tabs ≡ some t)
      × (count_packet_dag root p.bytes ≡ some c)
      × ((n : Node) → (new : List Row) × (t n ≡ tabs n ++ new) × (c n ≡ length new % 2 ^ 32))
count-dag_decode_packet root p tabs =
    let (t, run, all) = decode-rows root p tabs in
    let (c, counted, each) = count-rows root p in
    (t, c, run, counted, λ n. (rows_of n (packet_rows root p), all n, each n))
