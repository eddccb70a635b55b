-- ===== src/Dag/Children/SomeipSd/Tables.antt =====
-- someip_sd.hpp, someip_sd_bulk.hpp: the child tables of SOME/IP service discovery, and the passes
-- over a packet. A child table is the list of its rows.
use nanotins.Shared.{ℕ, ◌≡◌, refl, List, length, replicate, Option, some, ◌>>=◌}
use nanotins.WireSpec.{view}
use nanotins.WireSpec.Protocols.Someip.{someip_sd_entry_spec}
use nanotins.Bulk.{Key, Counts, append_row}
use nanotins.Bulk
use nanotins.Dag.{Node, someip}
use nanotins.Dag.Decode.{Row, DagPacket}
use nanotins.Dag.Children.Visits.{
  ChildVisits, decode_with_children, count_children, scatter_children, children_bulk,
}
use nanotins.Dag.Children.SomeipSd.{for_each_sd_child, sd_decode_endpoint}

-- The columns of an entry behind the packet id and the index.
pub record SdEntry : Type 0 where
  pub type : ℕ
  pub index_1st_opts : ℕ
  pub index_2nd_opts : ℕ
  pub num_opt_1 : ℕ
  pub num_opt_2 : ℕ
  pub service_id : ℕ
  pub instance_id : ℕ
  pub major_version : ℕ
  pub ttl : ℕ
  pub minor_version : ℕ

unfoldable pub read_entry : List ℕ → ℕ → Option SdEntry
read_entry pkt e = do
  type ← view pkt e someip_sd_entry_spec "type"
  first ← view pkt e someip_sd_entry_spec "index_1st_opts"
  second ← view pkt e someip_sd_entry_spec "index_2nd_opts"
  num_1 ← view pkt e someip_sd_entry_spec "num_opt_1"
  num_2 ← view pkt e someip_sd_entry_spec "num_opt_2"
  service ← view pkt e someip_sd_entry_spec "service_id"
  instance_id ← view pkt e someip_sd_entry_spec "instance_id"
  major ← view pkt e someip_sd_entry_spec "major_version"
  ttl ← view pkt e someip_sd_entry_spec "ttl"
  minor ← view pkt e someip_sd_entry_spec "minor_version"
  some (record {
    type = type;
    index_1st_opts = first;
    index_2nd_opts = second;
    num_opt_1 = num_1;
    num_opt_2 = num_2;
    service_id = service;
    instance_id = instance_id;
    major_version = major;
    ttl = ttl;
    minor_version = minor;
  })

pub data SdChildTable : Type 0 where
  entry option : SdChildTable

-- A row of the entry table: packet id, index, the entry's columns; and one of the option table:
-- packet id, index, Length field, Type octet, L4 protocol, port, address.
pub data SdRow : Type 0 where
  entry_row : (pid entry_index : ℕ) → SdEntry → SdRow
  option_row : (pid option_index len type l4proto port : ℕ) → List ℕ → SdRow

abbrev pub table_id : SdChildTable → ℕ
table_id entry = 0
table_id option = 1

pub table_id_inj : (a b : SdChildTable) → table_id a ≡ table_id b → a ≡ b
table_id_inj entry entry h = refl
table_id_inj entry option h = cc
table_id_inj option entry h = cc
table_id_inj option option h = refl

instance abbrev pub sd_table_key : Key SdChildTable
sd_table_key = record { id = table_id; id_inj = table_id_inj }

abbrev pub SdChildTables : Type 0
SdChildTables = Bulk.Tables SdChildTable SdRow

-- What the callbacks of the decode and the scatter make of an entry and of an option, handed to `on`.
abbrev pub entry_rows {ℓ} :
    {S : Type ℓ}
    → List ℕ
    → (pid : ℕ) → (S → SdChildTable → SdRow → Option S)
    → S
    → (index at : ℕ) → Option S
entry_rows pkt pid on s index at = read_entry pkt at >>= λ e. on s entry (entry_row pid index e)

abbrev pub option_rows {ℓ} :
    {S : Type ℓ}
    → List ℕ
    → (pid end : ℕ) → (S → SdChildTable → SdRow → Option S)
    → S
    → (index at len type : ℕ) → Option S
option_rows pkt pid end on s index at len type = sd_decode_endpoint pkt at type end >>= λ e.
    on s option (option_row pid index len type e.l4proto e.port e.addr)

unfoldable pub emit_sd_children :
    (pid : ℕ) → List ℕ → (off end : ℕ) → SdChildTables → Option SdChildTables
emit_sd_children pid pkt off end kids =
    for_each_sd_child pkt off (entry_rows pkt pid append_row) (option_rows pkt pid end append_row)
      kids

-- What the decode and the scatter do at a visited node.
unfoldable pub emit_sd :
    DagPacket
    → (S : Type 0) → (S → SdChildTable → SdRow → Option S)
    → Unit {0} × S
    → Node
    → ℕ
    → Option (Unit {0} × S)
emit_sd p S on (u, s) someip off =
    for_each_sd_child p.bytes off (entry_rows p.bytes p.packet_id on)
      (option_rows p.bytes p.packet_id (length p.bytes) on) s
    >>= λ s'. some (u, s')
emit_sd p S on (u, s) n off = some (u, s)

-- What the count does there.
unfoldable pub count_sd : List ℕ → (S : Type 0) → (S → SdChildTable → S) → S → Node → ℕ → Option S
count_sd pkt S tally s someip off =
    for_each_sd_child pkt off (λ t index at. some (tally t entry))
      (λ t index at len type. some (tally t option)) s
count_sd pkt S tally s n off = some s

abbrev pub blank_entry : SdEntry
blank_entry = record {
  type = 0;
  index_1st_opts = 0;
  index_2nd_opts = 0;
  num_opt_1 = 0;
  num_opt_2 = 0;
  service_id = 0;
  instance_id = 0;
  major_version = 0;
  ttl = 0;
  minor_version = 0;
}

-- The value-initialised row of resized columns.
abbrev pub blank_sd : SdChildTable → SdRow
blank_sd entry = entry_row 0 0 blank_entry
blank_sd option = option_row 0 0 0 0 0 0 (replicate 16 0)

abbrev pub Takes : SdChildTable → SdRow → Type 0
Takes entry (entry_row p i e) = Unit
Takes option (option_row p i l t l4 port a) = Unit
Takes t r = ⊥

abbrev pub sd_visits : ChildVisits SdChildTable SdRow
sd_visits = record {
  Carried = Unit;
  first = tt;
  emit = emit_sd;
  count = count_sd;
  blank = blank_sd;
  Takes = Takes;
}

abbrev pub dag_decode_packet_with_someip_sd :
    Node
    → DagPacket
    → Bulk.Tables Node Row
    → SdChildTables
    → Option (Bulk.Tables Node Row × SdChildTables)
dag_decode_packet_with_someip_sd = decode_with_children sd_visits

abbrev pub count_packet_someip_sd_children : Node → List ℕ → Option (Counts SdChildTable)
count_packet_someip_sd_children = count_children sd_visits

abbrev pub scatter_packet_someip_sd_children :
    Node → DagPacket → Counts SdChildTable → SdChildTables → Option SdChildTables
scatter_packet_someip_sd_children = scatter_children sd_visits

abbrev pub someip_sd_bulk : Node → List DagPacket → List ℕ → SdChildTables → Option SdChildTables
someip_sd_bulk = children_bulk sd_visits
