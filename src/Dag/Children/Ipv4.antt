-- ===== src/Dag/Children/Ipv4.antt =====
-- nanotins/include/nanotins/ipv4_children.hpp and ipv4_children_bulk.hpp: the child table of IPv4
-- options, filled in one walk with the fixed tables, its count and scatter passes, and the fill in
-- bulk.
pub mod Passes
pub mod Agreement
use nanotins.Shared.{
  ℕ, suc, ◌+◌, ◌-◌, ◌*◌, List, length, Option, none, some, Bool, true, false, leb, ◌≡◌, refl,
}
use nanotins.Shared.{if◌then◌else◌, ◌>>=◌}
use nanotins.Shared.Bits.{u8}
use nanotins.WireSpec.{view}
use nanotins.WireSpec.Protocols.{ipv4_spec}
use nanotins.Tlv.{TlvRecord, TlvPad}
use nanotins.Dag.{Node, ipv4, walk}
use nanotins.Bulk.{Key, Tables, Counts}
use nanotins.Dag.Decode.{Row, DagPacket}
use nanotins.Dag.Children.{visit_records}
use nanotins.Dag.Children.Visits.{
  ChildVisits, decode_with_children, count_children, scatter_children, children_bulk,
}

-- The on-wire length of an option: one byte for a marker, the value and its preamble otherwise.
abbrev pub on_wire : TlvRecord → ℕ
on_wire r = elim r.value [ none ↦ 1 | some v ↦ u8 (r.len + 2) ]

unfoldable pub for_each_ipv4_opt {ℓ} :
    {S : Type ℓ} → List ℕ → ℕ → (S → ℕ → ℕ → Option S) → S → Option S
for_each_ipv4_opt pkt off on_opt s = view pkt off ipv4_spec "ihl" >>= λ ihl.
    if leb (ihl * 4) 20
    then some s
    else (let end = if leb (off + ihl * 4) (length pkt) then off + ihl * 4 else length pkt in
        if leb end (off + 20)
        then some s
        else visit_records (suc (end - (off + 20))) pkt (λ s r. on_opt s r.type (on_wire r))
            (record { p = some (off + 20); end = end; pad = TlvPad.ipv4_options }) s)

-- The compile-time test that a visited node is the IPv4 node.
abbrev pub is_ipv4 : Node → Bool
is_ipv4 ipv4 = true
is_ipv4 n = false

-- The one child table, and a row of it: packet id, option type, on-wire length.
pub data Ipv4ChildTable : Type 0 where
  opt : Ipv4ChildTable

abbrev pub table_id : Ipv4ChildTable → ℕ
table_id opt = 0

pub table_id_inj : (a b : Ipv4ChildTable) → table_id a ≡ table_id b → a ≡ b
table_id_inj opt opt h = refl

instance abbrev pub ipv4_table_key : Key Ipv4ChildTable
ipv4_table_key = record { id = table_id; id_inj = table_id_inj }

abbrev pub OptRow : Type 0
OptRow = ℕ × ℕ × ℕ

abbrev pub Ipv4ChildTables : Type 0
Ipv4ChildTables = Tables Ipv4ChildTable OptRow

-- What a pass does at a visited node.
unfoldable pub at_ipv4 {ℓ} :
    {S : Type ℓ} → List ℕ → (S → ℕ → ℕ → Option S) → S → Node → ℕ → Option S
at_ipv4 pkt on_opt s n off = if is_ipv4 n then for_each_ipv4_opt pkt off on_opt s else some s

-- What the decode and the scatter do there: each option makes a row, handed to `on`.
abbrev pub emit_ipv4 :
    DagPacket
    → (S : Type 0) → (S → Ipv4ChildTable → OptRow → Option S)
    → Unit {0} × S
    → Node
    → ℕ
    → Option (Unit {0} × S)
emit_ipv4 p S on s n off =
    at_ipv4 p.bytes (λ t type len. on t opt (p.packet_id, type, len)) s.1 n off >>= λ s'.
    some (s.0, s')

abbrev pub count_ipv4 : List ℕ → (S : Type 0) → (S → Ipv4ChildTable → S) → S → Node → ℕ → Option S
count_ipv4 pkt S tally s n off = at_ipv4 pkt (λ t type len. some (tally t opt)) s n off

abbrev pub ipv4_visits : ChildVisits Ipv4ChildTable OptRow
ipv4_visits = record {
  Carried = Unit;
  first = tt;
  emit = emit_ipv4;
  count = count_ipv4;
  blank = λ n. (0, 0, 0);
  Takes = λ n r. Unit;
}

abbrev pub dag_decode_packet_with_ipv4_children :
    Node
    → DagPacket
    → Tables Node Row
    → Ipv4ChildTables
    → Option (Tables Node Row × Ipv4ChildTables)
dag_decode_packet_with_ipv4_children = decode_with_children ipv4_visits

abbrev pub count_packet_ipv4_children : Node → List ℕ → Option (Counts Ipv4ChildTable)
count_packet_ipv4_children = count_children ipv4_visits

abbrev pub scatter_packet_ipv4_children :
    Node → DagPacket → Counts Ipv4ChildTable → Ipv4ChildTables → Option Ipv4ChildTables
scatter_packet_ipv4_children = scatter_children ipv4_visits

abbrev pub ipv4_children_bulk :
    Node → List DagPacket → List ℕ → Ipv4ChildTables → Option Ipv4ChildTables
ipv4_children_bulk = children_bulk ipv4_visits
