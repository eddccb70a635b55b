-- ===== src/Dag/Decode.antt =====
-- nanotins/include/nanotins/dag_decode.hpp and dag_bulk.hpp: the decode of packets into one table per
-- node, packet by packet, and in bulk by a count pass, an exclusive prefix sum and a scatter pass.
pub mod Emits
pub mod Passes
pub mod Bulk
use nanotins.Shared.{ℕ, ◌*◌, List, [], ◌∷◌, map, replicate}
use nanotins.Shared.{Option, some, ◌>>=◌}
use nanotins.Bulk.{
  Tables, Counts, append_row, bump, scatter_row, PacketPasses, decode_all, decode_bulk,
}
use nanotins.WireSpec.{
  Spec, Field, named_field, named_bit_field, named_bytes_field, Value, number, blob, read_field,
}
use nanotins.Dag.{Node, spec, walk}
use nanotins.Dag.Nodes.{node_key}

-- A row: the packet id, and the values of the spec's fields in order.
abbrev pub Row : Type 0
Row = ℕ × List Value

unfoldable pub read_fields : List ℕ → ℕ → Spec → Option (List Value)
read_fields pkt p [] = some []
read_fields pkt p (f ∷ fs) =
    read_field pkt p f >>= λ v. read_fields pkt p fs >>= λ vs. some (v ∷ vs)

abbrev pub append_visit : ℕ → List ℕ → Tables Node Row → Node → ℕ → Option (Tables Node Row)
append_visit pid pkt tabs n off = read_fields pkt off (spec n) >>= λ vs. append_row tabs n (pid, vs)

pub record DagPacket : Type 0 where
  pub bytes : List ℕ
  pub packet_id : ℕ

unfoldable pub dag_decode_packet : Node → DagPacket → Tables Node Row → Option (Tables Node Row)
dag_decode_packet root p tabs =
    walk p.bytes (append_visit p.packet_id p.bytes) root tabs >>= λ t. some t.0

abbrev pub count_visit : Counts Node → Node → ℕ → Option (Counts Node)
count_visit c n off = some (bump c n)

pub count_packet_dag : Node → List ℕ → Option (Counts Node)
count_packet_dag root pkt = walk pkt count_visit root (λ n. 0) >>= λ t. some t.0

abbrev pub scatter_visit :
    ℕ → List ℕ → Counts Node × Tables Node Row → Node → ℕ → Option (Counts Node × Tables Node Row)
scatter_visit pid pkt s n off = read_fields pkt off (spec n) >>= λ vs. scatter_row s n (pid, vs)

pub scatter_packet_dag : Node → DagPacket → Counts Node → Tables Node Row → Option (Tables Node Row)
scatter_packet_dag root p base tabs =
    walk p.bytes (scatter_visit p.packet_id p.bytes) root (base, tabs) >>= λ t. some (t.0).1

-- The value-initialised field of a resized column.
abbrev pub zero_value : Field → Value
zero_value (named_field t o n e) = number 0
zero_value (named_bit_field t o n b w e) = number 0
zero_value (named_bytes_field t o n) = blob (replicate n 0)

abbrev pub blank : Node → Row
blank n = (0, map zero_value (spec n))

abbrev pub dag_passes : Node → PacketPasses DagPacket Node Row
dag_passes root = record {
  decode = dag_decode_packet root;
  count = λ p. count_packet_dag root p.bytes;
  scatter = scatter_packet_dag root;
  blank = blank;
}

-- The packets decoded one after the other.
abbrev pub dag_decode_all : Node → List DagPacket → Tables Node Row → Option (Tables Node Row)
dag_decode_all root = decode_all (dag_passes root)

abbrev pub dag_decode_bulk :
    Node → List DagPacket → List ℕ → Tables Node Row → Option (Tables Node Row)
dag_decode_bulk root = decode_bulk (dag_passes root)
