-- ===== src/Dpar/Catalog.antt =====
-- nanotins/include/nanotins/dpar.hpp: the field catalog, every scalar and bit field of every node.
use nanotins.Shared.{ℕ, List, [], ◌∷◌, ◌++◌, Option, none, some, Bool, true, false}
use nanotins.Shared.{if◌then◌else◌, ◌&&◌}
use nanotins.Shared.Bits.{u8, u16}
use nanotins.WireSpec.{
  WireEndian, Spec, Field, named_field, named_bit_field, named_bytes_field, tag,
}
use nanotins.Dag.{
  Node, eth, vlan, ipv4, ipv6, tcp, udp, gptp, ptp_timestamp, ptp_ts_port, ptp_announce,
  ptp_signaling, ipv6_hop_by_hop, ipv6_routing, ipv6_fragment, ipv6_dest_opt, ipv6_ah, someip, spec,
}
use nanotins.Dag.Nodes.{node_id}
use nanotins.Dpar.{FieldRef}
use Prim.Native.String.{String}
use nanotins.Dpar.Texts.{codes, bytes_eq, c_str}

pub record CatalogEntry : Type 0 where
  pub node : String
  pub field : String
  pub ref : FieldRef

abbrev pub is_big : WireEndian → Bool
is_big WireEndian.big = true
is_big WireEndian.little = false

abbrev pub bit_ref : (node offset size bit_offset width : ℕ) → WireEndian → FieldRef
bit_ref node o n b w e = record {
  node_id = node;
  offset = u16 o;
  byte_width = u8 n;
  big_endian = is_big e;
  is_bitfield = true;
  bit_offset = u8 b;
  bit_width = u8 w;
}

abbrev pub scalar_ref : (node offset size : ℕ) → WireEndian → FieldRef
scalar_ref node o n e = record {
  node_id = node;
  offset = u16 o;
  byte_width = u8 n;
  big_endian = is_big e;
  is_bitfield = false;
  bit_offset = 0;
  bit_width = 0;
}

-- A byte-array field has no reference.
abbrev pub field_to_ref : (node : ℕ) → Field → Option FieldRef
field_to_ref node (named_bytes_field t o n) = none
field_to_ref node (named_bit_field t o n b w e) = some (bit_ref node o n b w e)
field_to_ref node (named_field t o n e) = some (scalar_ref node o n e)

-- The entries of a node's fields.
abbrev pub add_node_catalog : (node : ℕ) → String → Spec → List CatalogEntry
add_node_catalog node name [] = []
add_node_catalog node name (f ∷ fs) = elim (field_to_ref node f) [
  | none ↦ add_node_catalog node name fs
  | some ref ↦ record { node = name; field = tag f; ref = ref } ∷ add_node_catalog node name fs
]

abbrev pub node_name : Node → String
node_name eth = "eth"
node_name vlan = "vlan"
node_name ipv4 = "ipv4"
node_name ipv6 = "ipv6"
node_name tcp = "tcp"
node_name udp = "udp"
node_name gptp = "gptp"
node_name ptp_timestamp = "ptp_timestamp"
node_name ptp_ts_port = "ptp_ts_port"
node_name ptp_announce = "ptp_announce"
node_name ptp_signaling = "ptp_signaling"
node_name ipv6_hop_by_hop = "ipv6_hbh"
node_name ipv6_routing = "ipv6_routing"
node_name ipv6_fragment = "ipv6_fragment"
node_name ipv6_dest_opt = "ipv6_destopt"
node_name ipv6_ah = "ipv6_ah"
node_name someip = "someip"

abbrev pub build_field_catalog : List Node → List CatalogEntry
build_field_catalog [] = []
build_field_catalog (n ∷ ns) =
    add_node_catalog (u16 (node_id n)) (node_name n) (spec n) ++ build_field_catalog ns

-- The nodes of L2L3Graph in order.
abbrev pub graph_nodes : List Node
graph_nodes =
    eth ∷ vlan ∷ ipv4 ∷ ipv6 ∷ tcp ∷ udp ∷ gptp ∷ ptp_timestamp ∷ ptp_ts_port ∷ ptp_announce
    ∷ ptp_signaling ∷ ipv6_hop_by_hop ∷ ipv6_routing ∷ ipv6_fragment ∷ ipv6_dest_opt ∷ ipv6_ah
    ∷ someip ∷ []

unfoldable pub build_l2l3_catalog : List CatalogEntry
build_l2l3_catalog = build_field_catalog graph_nodes

-- The first entry of a node and a field, compared by strcmp; a null pointer is `none`.
unfoldable pub find_field : List CatalogEntry → (node field : List ℕ) → Option CatalogEntry
find_field [] node field = none
find_field (e ∷ cat) node field =
    if bytes_eq (codes e.node) (c_str node) && bytes_eq (codes e.field) (c_str field)
    then some e
    else find_field cat node field
