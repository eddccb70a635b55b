-- ===== src/WireSpec/Protocols.antt =====
-- The header specs: protocol_specs.hpp here, the PTP and SOME/IP specs in the children.
pub mod Ptp
pub mod Someip
use nanotins.Shared.{List, [], ◌∷◌, ◌++◌}
use nanotins.WireSpec.{
  Spec, WireEndian, little, big, named_field, named_bit_field, named_bytes_field, embed,
}

abbrev pub ethernet_spec : Spec
ethernet_spec =
    named_bytes_field "dst" 0 6
    ∷ named_bytes_field "src" 6 6
    ∷ named_field "ethertype" 12 2 big
    ∷ []

abbrev pub vlan_tag_spec : Spec
vlan_tag_spec =
    named_bit_field "pcp" 0 2 0 3 big
    ∷ named_bit_field "dei" 0 2 3 1 big
    ∷ named_bit_field "vid" 0 2 4 12 big
    ∷ named_field "inner_ethertype" 2 2 big
    ∷ []

abbrev pub ipv4_spec : Spec
ipv4_spec =
    named_bit_field "version" 0 1 0 4 big
    ∷ named_bit_field "ihl" 0 1 4 4 big
    ∷ named_bit_field "dscp" 1 1 0 6 big
    ∷ named_bit_field "ecn" 1 1 6 2 big
    ∷ named_field "total_length" 2 2 big
    ∷ named_field "identification" 4 2 big
    ∷ named_bit_field "flags" 6 2 0 3 big
    ∷ named_bit_field "frag_offset" 6 2 3 13 big
    ∷ named_field "ttl" 8 1 big
    ∷ named_field "protocol" 9 1 big
    ∷ named_field "checksum" 10 2 big
    ∷ named_bytes_field "src" 12 4
    ∷ named_bytes_field "dst" 16 4
    ∷ []

abbrev pub ipv6_spec : Spec
ipv6_spec =
    named_bit_field "version" 0 4 0 4 big
    ∷ named_bit_field "traffic_class" 0 4 4 8 big
    ∷ named_bit_field "flow_label" 0 4 12 20 big
    ∷ named_field "payload_length" 4 2 big
    ∷ named_field "next_header" 6 1 big
    ∷ named_field "hop_limit" 7 1 big
    ∷ named_bytes_field "src" 8 16
    ∷ named_bytes_field "dst" 24 16
    ∷ []

abbrev pub tcp_spec : Spec
tcp_spec =
    named_field "src_port" 0 2 big
    ∷ named_field "dst_port" 2 2 big
    ∷ named_field "seq" 4 4 big
    ∷ named_field "ack" 8 4 big
    ∷ named_bit_field "data_offset" 12 2 0 4 big
    ∷ named_bit_field "reserved" 12 2 4 3 big
    ∷ named_bit_field "flags" 12 2 7 9 big
    ∷ named_field "window" 14 2 big
    ∷ named_field "checksum" 16 2 big
    ∷ named_field "urgent_ptr" 18 2 big
    ∷ []

abbrev pub udp_spec : Spec
udp_spec =
    named_field "src_port" 0 2 big
    ∷ named_field "dst_port" 2 2 big
    ∷ named_field "length" 4 2 big
    ∷ named_field "checksum" 6 2 big
    ∷ []

abbrev pub ipv6_ext_opt_spec : Spec
ipv6_ext_opt_spec = named_field "next_header" 0 1 big ∷ named_field "hdr_ext_len" 1 1 big ∷ []

abbrev pub ipv6_srh_spec : Spec
ipv6_srh_spec =
    named_field "next_header" 0 1 big
    ∷ named_field "hdr_ext_len" 1 1 big
    ∷ named_field "routing_type" 2 1 big
    ∷ named_field "segments_left" 3 1 big
    ∷ named_field "last_entry" 4 1 big
    ∷ named_field "flags" 5 1 big
    ∷ named_field "tag" 6 2 big
    ∷ []

abbrev pub ipv6_fragment_spec : Spec
ipv6_fragment_spec =
    named_field "next_header" 0 1 big
    ∷ named_field "reserved" 1 1 big
    ∷ named_bit_field "frag_offset" 2 2 0 13 big
    ∷ named_bit_field "res2" 2 2 13 2 big
    ∷ named_bit_field "more_fragments" 2 2 15 1 big
    ∷ named_field "identification" 4 4 big
    ∷ []

abbrev pub ipv6_ah_spec : Spec
ipv6_ah_spec =
    named_field "next_header" 0 1 big
    ∷ named_field "payload_len" 1 1 big
    ∷ named_field "reserved" 2 2 big
    ∷ named_field "spi" 4 4 big
    ∷ named_field "seq" 8 4 big
    ∷ []
