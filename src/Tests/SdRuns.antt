-- ===== src/Tests/SdRuns.antt =====
-- The children of SOME/IP service discovery: the theorems at a message with one entry and one IPv4
-- endpoint option.
use nanotins.Shared.{
  ℕ, ◌+◌, ◌≤◌, ◌<◌, ◌^◌, ◌≡◌, refl, arith, List, [], ◌∷◌, ◌++◌, length, All, Option, some, ◌>>=◌,
}
use nanotins.Shared.{◌==◌, if◌then◌else◌, Bool-cases, inl, inr, replicate}
use nanotins.Shared.Buffer.{byte_at}
use std.Path.{fun_ext}
use nanotins.WireSpec.{view, read_field, read_scalar_at, big_loop, read_bytes, number}
use nanotins.Bulk
use nanotins.Bulk.{put, push, append_row}
use nanotins.Dag.{
  Node, someip, walk, walk_loop, dispatch_node, next, advance, match_edges, match_from,
}
use nanotins.Dag.Nodes.{node_id, node_key}
use nanotins.Dag.Decode.{Row, DagPacket, read_fields, dag_decode_bulk}
use nanotins.Dag.Children.{fold_list}
use nanotins.Dag.Children.Visits.{decode_with_children, decode_all_with_children}
use nanotins.Dag.Children.SomeipSd.{
  for_each_sd_child, visit_sd, visit_entries, visit_option_array, visit_options, sd_decode_endpoint,
}
use nanotins.Dag.Children.SomeipSd.Tables.{
  read_entry, SdChildTable, SdRow, entry_row, option_row, table_id, sd_table_key, SdChildTables,
  emit_sd, sd_visits, someip_sd_bulk, entry, option,
}
use nanotins.Dag.Children.SomeipSd.Visits
use nanotins.Dag.Children.SomeipSd.Visits.{
  SdOption, seen_entry, seen_option, entry_end, option_end, entry_list,
}
use nanotins.Dag.Children.SomeipSd.Wire.{option_list}
use nanotins.Dag.Children.SomeipSd.RoundTrip
use nanotins.Dag.Children.SomeipSd.RoundTrip.{SdMessage, IsEncodable, encode}
use nanotins.Dag.Children.SomeipSd.Agreement

abbrev offer : SdMessage
offer = record {
  client_id = 0;
  session_id = 1;
  protocol_version = 1;
  interface_version = 1;
  message_type = 2;
  return_code = 0;
  flags = 0xC0;
  entries = (1 ∷ 0 ∷ 0 ∷ 0x10 ∷ 0x12 ∷ 0x34 ∷ 0 ∷ 1 ∷ 1 ∷ 0 ∷ 0 ∷ 3 ∷ 0 ∷ 0 ∷ 0 ∷ 5 ∷ []) ∷ [];
  options = record { type = 4; value = 0 ∷ 10 ∷ 0 ∷ 0 ∷ 7 ∷ 0 ∷ 17 ∷ 0x77 ∷ 0x1A ∷ [] } ∷ [];
}

for_each_sd_child-fold_list_example :
    (count : ℕ) × (options : List SdOption) × ((S : Type 0) (on_entry : S → ℕ → ℕ → Option S)
        (on_option : S → ℕ → ℕ → ℕ → ℕ → Option S) (s : S)
      → for_each_sd_child (encode offer) 0 on_entry on_option s ≡ (
          fold_list (seen_entry on_entry) s (entry_list 24 0 count) >>= λ s'.
          fold_list (seen_option on_option) s' options))
    × All (λ e. entry_end e ≤ length (encode offer)) (entry_list 24 0 count)
    × All (λ o. option_end o ≤ length (encode offer)) options
for_each_sd_child-fold_list_example = Visits.for_each_sd_child-fold_list (encode offer) 0

abbrev count_both : ℕ → ℕ → ℕ → Option ℕ
count_both c index at = some (c + 1)

abbrev count_option : ℕ → ℕ → ℕ → ℕ → ℕ → Option ℕ
count_option c index at len type = some (c + 100)

offer-IsEncodable : IsEncodable offer
offer-IsEncodable = record { stride = omega arith; short = omega arith; small = omega arith }

for_each_sd_child-encode_example :
    for_each_sd_child ((9 ∷ []) ++ (encode offer ++ (9 ∷ []))) 1 count_both count_option 0 ≡ (
      fold_list (seen_entry count_both) 0 (entry_list 25 0 1) >>= λ s'.
      fold_list (seen_option count_option) s' (option_list 45 0 offer.options))
for_each_sd_child-encode_example =
    RoundTrip.for_each_sd_child-encode (9 ∷ []) (9 ∷ []) offer ℕ count_both count_option 0
      offer-IsEncodable

-- A packet that starts with the message.
abbrev sd_packet : DagPacket
sd_packet = record { bytes = encode offer; packet_id = 7 }

abbrev no_tables : Bulk.Tables Node Row
no_tables n = []

abbrev no_kids : SdChildTables
no_kids n = []

abbrev sd_row : Row
sd_row = (
  7,
  number 0xFFFF
      ∷ number 0x8100
      ∷ number 48
      ∷ number 0
      ∷ number 1
      ∷ number 1
      ∷ number 1
      ∷ number 2
      ∷ number 0
      ∷ [],
)

abbrev sd_tables : Bulk.Tables Node Row
sd_tables n = if 16 == node_id n then sd_row ∷ [] else []

abbrev sd_entry : SdRow
sd_entry = entry_row 7 0 (record {
  type = 1;
  index_1st_opts = 0;
  index_2nd_opts = 0;
  num_opt_1 = 1;
  num_opt_2 = 0;
  service_id = 0x1234;
  instance_id = 1;
  major_version = 1;
  ttl = 3;
  minor_version = 5;
})

abbrev sd_option : SdRow
sd_option = option_row 7 0 9 4 17 0x771A (10 ∷ 0 ∷ 0 ∷ 7 ∷ replicate 12 0)

abbrev sd_kids : SdChildTables
sd_kids n =
    if 0 == table_id n then sd_entry ∷ [] else (if 1 == table_id n then sd_option ∷ [] else [])

each_kid :
    (n : SdChildTable)
    → put option (sd_option ∷ []) (put entry (sd_entry ∷ []) no_kids) n ≡ sd_kids n
unfolding put
each_kid entry = refl
each_kid option = refl

decodes :
    decode_all_with_children sd_visits someip (sd_packet ∷ []) no_tables no_kids
    ≡ some (sd_tables, sd_kids)
unfolding decode_all_with_children decode_with_children emit_sd for_each_sd_child visit_sd
    visit_entries visit_option_array visit_options sd_decode_endpoint read_entry walk walk_loop
    dispatch_node next advance match_edges match_from view read_field read_scalar_at big_loop
    read_bytes byte_at put read_fields push append_row
decodes = λ i. some (fixed i, kids i)
  where
    fixed : (λ n. put someip (sd_row ∷ []) no_tables n) ≡ sd_tables
    fixed =
        fun_ext (λ n. elim (Bool-cases (16 == node_id n)) [ inl e ↦ rw e refl | inr e ↦ rw e refl ])

    kids : (λ n. put option (sd_option ∷ []) (put entry (sd_entry ∷ []) no_kids) n) ≡ sd_kids
    kids = fun_ext each_kid

sd_tables_small : (n : Node) → length (sd_tables n) < 2 ^ 32
sd_tables_small n = ground arith

sd_kids_small : (n : SdChildTable) → length (sd_kids n) < 2 ^ 32
sd_kids_small n = ground arith

someip_sd_bulk-with_children_example :
    (dag_decode_bulk someip (sd_packet ∷ []) (0 ∷ []) no_tables ≡ some sd_tables)
    × (someip_sd_bulk someip (sd_packet ∷ []) (0 ∷ 0 ∷ []) no_kids ≡ some sd_kids)
someip_sd_bulk-with_children_example =
    Agreement.someip_sd_bulk-with_children someip (sd_packet ∷ []) (0 ∷ []) (0 ∷ 0 ∷ []) no_tables
      sd_tables no_kids sd_kids decodes sd_tables_small sd_kids_small (omega arith) refl
      (omega arith) refl
