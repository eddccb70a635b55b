-- ===== src/Dag/Children/Ipv6.antt =====
-- nanotins/include/nanotins/ipv6_children.hpp: the traversals of the variable parts of the IPv6
-- extension headers, and the rows that they add to the child tables. A child table is the list of its
-- rows.
pub mod Regions
pub mod Rows
pub mod Emission
pub mod Passes
pub mod Agreement
use nanotins.Shared.{
  ℕ, zero, suc, ◌+◌, ◌-◌, ◌*◌, ◌≡◌, refl, List, length, replicate, Option, none, some, leb,
}
use nanotins.Shared.{if◌then◌else◌, ◌>>=◌}
use nanotins.Shared.Bits.{u8}
use nanotins.WireSpec.{view, read_bytes}
use nanotins.WireSpec.Protocols.{ipv6_srh_spec, ipv6_ext_opt_spec}
use nanotins.Tlv.{TlvRecord, TlvPad, repeat_at}
use nanotins.Bulk.{Key, Tables, Counts, append_row}
use nanotins.Dag.{Node, ipv6_routing, ipv6_hop_by_hop, ipv6_dest_opt}
use nanotins.Dag.Decode.{Row, DagPacket}
use nanotins.Dag.Children.{visit_records}
use nanotins.Dag.Children.Visits.{
  ChildVisits, decode_with_children, count_children, scatter_children, children_bulk,
}

pub data Ipv6ChildTable : Type 0 where
  srh_segment opt : Ipv6ChildTable

-- A row of the segment table: packet id, order of the SRH, index, address; and one of the option
-- table: packet id, container, option type, value length.
pub data Ipv6Row : Type 0 where
  segment_row : (pid srh_order segment_index : ℕ) → List ℕ → Ipv6Row
  contained_row : (pid container_type opt_type opt_len : ℕ) → Ipv6Row

abbrev pub table_id : Ipv6ChildTable → ℕ
table_id srh_segment = 0
table_id opt = 1

pub table_id_inj : (a b : Ipv6ChildTable) → table_id a ≡ table_id b → a ≡ b
table_id_inj srh_segment srh_segment h = refl
table_id_inj srh_segment opt h = cc
table_id_inj opt srh_segment h = cc
table_id_inj opt opt h = refl

instance abbrev pub ipv6_table_key : Key Ipv6ChildTable
ipv6_table_key = record { id = table_id; id_inj = table_id_inj }

abbrev pub Ipv6ChildTables : Type 0
Ipv6ChildTables = Tables Ipv6ChildTable Ipv6Row

-- The end of a header of `n` units of 8 bytes behind the first, clamped to the packet.
abbrev pub clamped_end : List ℕ → (off hdr_ext_len : ℕ) → ℕ
clamped_end pkt off n =
    if leb (off + (n + 1) * 8) (length pkt) then off + (n + 1) * 8 else length pkt

-- The cursor's loop over a region, when it is not empty.
unfoldable pub visit_region {ℓ} :
    {S : Type ℓ} → List ℕ → (start end : ℕ) → (S → TlvRecord → Option S) → S → Option S
visit_region pkt start end on s =
    if leb end start
    then some s
    else visit_records (suc (end - start)) pkt on
        (record { p = some start; end = end; pad = TlvPad.ipv6_options }) s

-- The loop over segments: `left` of the `nseg` are left.
unfoldable pub visit_segments {ℓ} :
    {S : Type ℓ} → (seg_base nseg end left : ℕ) → (S → (index at : ℕ) → Option S) → S → Option S
visit_segments seg_base nseg end zero on s = some s
visit_segments seg_base nseg end (suc left) on s =
    elim (repeat_at (some seg_base) nseg 16 end (nseg - suc left)) [
      | none ↦ some s
      | some at ↦
          on s (u8 (nseg - suc left)) at >>= λ s'. visit_segments seg_base nseg end left on s'
    ]

unfoldable pub for_each_srh_child {ℓ} :
    {S : Type ℓ}
    → List ℕ
    → (off : ℕ) → (S → (index at : ℕ) → Option S)
    → (S → (type len : ℕ) → Option S)
    → S
    → Option S
for_each_srh_child pkt off on_seg on_tlv s = view pkt off ipv6_srh_spec "hdr_ext_len" >>= λ n.
    view pkt off ipv6_srh_spec "last_entry" >>= λ last_entry.
    visit_segments (off + 8) (last_entry + 1) (clamped_end pkt off n) (last_entry + 1) on_seg s
    >>= λ s'.
        visit_region pkt (off + 8 + (last_entry + 1) * 16) (clamped_end pkt off n)
          (λ t r. on_tlv t r.type r.len) s'

unfoldable pub for_each_opt {ℓ} :
    {S : Type ℓ} → List ℕ → (off : ℕ) → (S → (type len : ℕ) → Option S) → S → Option S
for_each_opt pkt off on_opt s = view pkt off ipv6_ext_opt_spec "hdr_ext_len" >>= λ n.
    visit_region pkt (off + 2) (clamped_end pkt off n) (λ t r. on_opt t r.type r.len) s

-- The rows of a segment routing header, each handed to a callback with its table.
abbrev pub srh_rows {ℓ} :
    {S : Type ℓ}
    → List ℕ
    → (pid off srh_order : ℕ) → (S → Ipv6ChildTable → Ipv6Row → Option S)
    → S
    → Option S
srh_rows pkt pid off srh_order on s =
    for_each_srh_child pkt off
      (λ t index at. read_bytes pkt at 16 >>= λ address.
        on t srh_segment (segment_row pid srh_order index address))
      (λ t type len. on t opt (contained_row pid 43 type len)) s

-- The rows of a Hop-by-Hop or Destination Options header.
abbrev pub opt_rows {ℓ} :
    {S : Type ℓ}
    → List ℕ
    → (pid off container : ℕ) → (S → Ipv6ChildTable → Ipv6Row → Option S)
    → S
    → Option S
opt_rows pkt pid off container on s =
    for_each_opt pkt off (λ t type len. on t opt (contained_row pid container type len)) s

unfoldable pub emit_srh_children :
    (pid : ℕ) → List ℕ → (off srh_order : ℕ) → Ipv6ChildTables → Option Ipv6ChildTables
emit_srh_children pid pkt off srh_order kids = srh_rows pkt pid off srh_order append_row kids

unfoldable pub emit_opt_children :
    (pid : ℕ) → List ℕ → (off container : ℕ) → Ipv6ChildTables → Option Ipv6ChildTables
emit_opt_children pid pkt off container kids = opt_rows pkt pid off container append_row kids

-- What the decode and the scatter do at a visited node; `srh_order` counts the segment routing
-- headers.
unfoldable pub emit_ipv6 :
    DagPacket
    → (S : Type 0) → (S → Ipv6ChildTable → Ipv6Row → Option S)
    → ℕ × S
    → Node
    → ℕ
    → Option (ℕ × S)
emit_ipv6 p S on (srh_order, s) ipv6_routing off =
    srh_rows p.bytes p.packet_id off srh_order on s >>= λ s'. some (u8 (srh_order + 1), s')
emit_ipv6 p S on (srh_order, s) ipv6_hop_by_hop off =
    opt_rows p.bytes p.packet_id off 0 on s >>= λ s'. some (srh_order, s')
emit_ipv6 p S on (srh_order, s) ipv6_dest_opt off =
    opt_rows p.bytes p.packet_id off 60 on s >>= λ s'. some (srh_order, s')
emit_ipv6 p S on (srh_order, s) n off = some (srh_order, s)

-- What the count does there.
unfoldable pub count_ipv6 :
    List ℕ → (S : Type 0) → (S → Ipv6ChildTable → S) → S → Node → ℕ → Option S
count_ipv6 pkt S tally s ipv6_routing off =
    for_each_srh_child pkt off (λ t index at. some (tally t srh_segment))
      (λ t type len. some (tally t opt)) s
count_ipv6 pkt S tally s ipv6_hop_by_hop off =
    for_each_opt pkt off (λ t type len. some (tally t opt)) s
count_ipv6 pkt S tally s ipv6_dest_opt off =
    for_each_opt pkt off (λ t type len. some (tally t opt)) s
count_ipv6 pkt S tally s n off = some s

-- The value-initialised row of resized columns.
abbrev pub blank_ipv6 : Ipv6ChildTable → Ipv6Row
blank_ipv6 srh_segment = segment_row 0 0 0 (replicate 16 0)
blank_ipv6 opt = contained_row 0 0 0 0

abbrev pub Takes : Ipv6ChildTable → Ipv6Row → Type 0
Takes srh_segment (segment_row p o i address) = Unit
Takes opt (contained_row p c t l) = Unit
Takes t r = ⊥

abbrev pub ipv6_visits : ChildVisits Ipv6ChildTable Ipv6Row
ipv6_visits = record {
  Carried = ℕ;
  first = 0;
  emit = emit_ipv6;
  count = count_ipv6;
  blank = blank_ipv6;
  Takes = Takes;
}

abbrev pub dag_decode_packet_with_children :
    Node
    → DagPacket
    → Tables Node Row
    → Ipv6ChildTables
    → Option (Tables Node Row × Ipv6ChildTables)
dag_decode_packet_with_children = decode_with_children ipv6_visits

abbrev pub count_packet_ipv6_children : Node → List ℕ → Option (Counts Ipv6ChildTable)
count_packet_ipv6_children = count_children ipv6_visits

abbrev pub scatter_packet_ipv6_children :
    Node → DagPacket → Counts Ipv6ChildTable → Ipv6ChildTables → Option Ipv6ChildTables
scatter_packet_ipv6_children = scatter_children ipv6_visits

abbrev pub ipv6_children_bulk :
    Node → List DagPacket → List ℕ → Ipv6ChildTables → Option Ipv6ChildTables
ipv6_children_bulk = children_bulk ipv6_visits
