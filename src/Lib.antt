-- ===== src/Lib.antt =====
-- A verification development for nanotins, the packet decoding library under nanotins/include/nanotins.
--
-- The program. A capture is scanned into block references (pcap_blocks.hpp), each reference is parsed
-- into a view, the packet bytes of a view are walked by a dispatch graph of header nodes
-- (spec_dag.hpp) whose headers are declared as wire specs (wire_spec.hpp, protocol_specs.hpp,
-- protocol_specs_ptp.hpp, protocol_specs_someip.hpp), and the variable parts of headers are read by
-- two cursors over type-length-value records (tlv.hpp, someip_tlv.hpp). The walk fills one table per
-- node, packet by packet or in bulk (dag_decode.hpp, dag_bulk.hpp), with child tables for the variable
-- parts (ipv4_children.hpp, ipv6_children.hpp, someip_sd.hpp), which are filled in bulk too; a decode
-- over packed structs does the same for L2 to L4 (protocols.hpp, protocol_decode.hpp,
-- protocol_decode_bulk.hpp). A rule engine compiles rules on header fields and calls a parser on the
-- payload of the packets that match (dpar.hpp); a palette holds the parsers and their tables of rows
-- (dpar_palette.hpp), and an application adds its own, as examples/lldp/lldp.hpp does.
--
-- The files.
--   Shared: Boolean tests, the Option monad, lists over the native numbers, bit operations on fixed
--     widths, and byte buffers with checked reads.
--   Pcap: pcap_blocks.hpp. Its data, rd16, rd32, rd64, pad4 and the classifications stand in Pcap,
--     next_option and the loop over it in Pcap/Options, scan_window and scan_blocks in Pcap/Scan,
--     parse_shb, parse_idb and parse_epb in Pcap/Parse, parse_epbs_bulk in Pcap/Columns.
--   Tlv: tlv.hpp, tlv_cursor::next, tlv_count and repeat_at.
--   SomeipTlv: someip_tlv.hpp, someip_tlv_cursor::next and someip_tlv_count.
--   WireSpec: wire_spec.hpp, the field types, embed, spec_size, read_scalar_at, read_field and
--     struct_view; WireSpec/Protocols has the specs of the three protocol_specs files.
--   Bulk: the tables and counters by key, and the fill in bulk that dag_bulk.hpp and
--     protocol_decode_bulk.hpp share, for any passes over one packet; Bulk/Bases has the laws that the
--     passes have to obey, Bulk/Executor bulk.hpp, bulk_for_each.
--   Pdus: protocols.hpp, the wire structs and overlay, with host() of soatins/include/soatins/endian.hpp and
--     word_host() of soatins/include/soatins/bits.hpp; Pdus/Layers and Pdus/Walk: protocol_decode.hpp,
--     decode_l2, decode_l3, decode_l4, walk_packet, decode_packet, count_packet and scatter_packet;
--     Pdus/Window: protocol_decode_bulk.hpp, decode_window.
--   Dag: spec_dag.hpp, the nodes of L2L3Graph, match_edges and the dispatch tables, advance and next of
--     every node, and walk.
--     Dag/Decode: dag_decode.hpp and dag_bulk.hpp, dag_decode_packet, count_packet_dag,
--     scatter_packet_dag and dag_decode_bulk.
--     Dag/Children/Visits: the passes over a packet that the headers of child tables and their harnesses
--     share, and the fill of child tables in bulk. Dag/Children/Ipv4: ipv4_children.hpp and
--     ipv4_children_bulk.hpp, for_each_ipv4_opt; Dag/Children/Ipv6: ipv6_children.hpp and
--     ipv6_children_bulk.hpp, for_each_srh_child, for_each_opt, emit_srh_children and emit_opt_children;
--     Dag/Children/SomeipSd: someip_sd.hpp and someip_sd_bulk.hpp, for_each_sd_child and
--     sd_decode_endpoint, with the tables and the passes in SomeipSd/Tables.
--   Dpar: dpar.hpp, the rule engine on L2L3Graph. Its data and read_field_runtime stand in Dpar, the
--     field catalog in Dpar/Catalog, resolve_region and dpar_match in Dpar/Match, compile_rules in
--     Dpar/Compile over the texts of Dpar/Texts. Dpar/Fires is the specification of the matcher, by a
--     list of visits in place of its arrays. The parser that a match calls is a parameter.
--     Dpar/Palette: dpar_palette.hpp, parser_palette for any list of Kinds, the built-in Kinds, and
--     dpar_engine with load_rules and run.
--   Lldp: examples/lldp/lldp.hpp, lldp_cursor::next and LldpKind, as a Kind of the palette;
--     Lldp/Wire has the wire format and the rows that are expected of it, Lldp/Ndjson the dump of the
--     table by lldp_type_name, row_to_json and dump_ndjson.
--   Tests: runs, and the theorems at concrete inputs.
--
-- The correspondence. A buffer is a list of bytes, a pointer into it is an offset, and a null pointer is
-- `none`. Every read goes through `byte_at`, which faults outside the buffer: a function that reads
-- returns an Option whose `none` is a fault or fuel that ran out, so a theorem that the result is `some`
-- says that the code stays inside the buffer and ends. Where the source also returns false, there is an
-- inner Option, whose `none` is false. Sums of 32 and 64 bits wrap where the source's do; sums of an
-- offset inside a buffer and a length of 32 bits do not reach 2^64. An output vector is a list that is
-- appended to.
--
-- Fuel. A loop over a region is given a round for each byte of the region and one more, and each round
-- takes a byte at least (2 for an LLDP TLV, 4 for a block option, 12 for a block, 16 for a record);
-- the theorems show that the fuel is never used up. The digits of a number are given a round more than
-- the number. The graph walk is bounded by the source's own kMaxWalkSteps.
--
-- Bulk. An executor is the order in which it runs the scatter kernels, one for each packet; a kernel's
-- writes are one step. The counts are of 32 bits and wrap; a table of 2^32 rows is excluded by
-- hypothesis. The products of bulk_for_each are of 64 bits and wrap; a product of tasks and indices of
-- 2^64 is excluded by hypothesis.
--
-- Not modelled. Later work: the optional trailers of decode_window, the record structs of gptp.hpp and
-- the column storage of wire_spec_soa.hpp. I/O and calls of third-party libraries: the sender library
-- that bulk.hpp calls, the reflection and Arrow glue of soatins, and the command-line programs.
pub mod Shared
pub mod Bulk
pub mod Pdus
pub mod Tlv
pub mod SomeipTlv
pub mod Pcap
pub mod WireSpec
pub mod Dag
pub mod Dpar
pub mod Lldp
pub mod Tests
