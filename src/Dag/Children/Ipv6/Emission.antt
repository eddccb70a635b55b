-- ===== src/Dag/Children/Ipv6/Emission.antt =====
-- ipv6_children.hpp: the rows that one header's emission appends.
use nanotins.Shared.{ℕ, ◌+◌, ◌≤◌, ◌≡◌, refl, ap, ◌∙◌, List, ◌++◌, map}
use nanotins.Shared.{length, All, Option, some}
use mathlib.Core.List.{append-nil}
use nanotins.WireSpec.{spec_size}
use nanotins.WireSpec.Protocols.{ipv6_srh_spec, ipv6_ext_opt_spec}
use nanotins.Tlv.{TlvRecord}
use nanotins.Bulk.{append_row}
use nanotins.Bulk.Layout.{
  tagged, rows_of-tagged_here, rows_of-tagged_there, rows_of-tagged_all, rows_of-tagged_none,
}
use nanotins.Bulk.Rows.{append_rows}
use nanotins.Dag.Children.{fold_list}
use nanotins.Dag.Children.Ipv6.{
  srh_segment, opt, Ipv6Row, contained_row, ipv6_table_key, Ipv6ChildTables, emit_srh_children,
  emit_opt_children, for_each_opt,
}
use nanotins.Dag.Children.Ipv6.Rows.{IsSegmentRow, contained, SrhRows-of, opt_rows-run_rows}
use nanotins.Dag.Children.Ipv6.Regions.{seen_record}

-- The emission of a segment routing header whose fixed part lies inside the packet returns without a
-- fault, whatever its lengths claim, and only appends: the segment table gains rows with the packet's
-- id, the header's order and 16 bytes of the packet, and the option table gains a row with the
-- packet's id and container 43 for each of some records, behind those they hold.
pub emit_srh_children-grown :
    (pid : ℕ) (pkt : List ℕ) (off srh_order : ℕ) (kids : Ipv6ChildTables)
    → off + spec_size ipv6_srh_spec ≤ length pkt
    → (segs : List Ipv6Row) × (recs : List TlvRecord) × (kids' : Ipv6ChildTables)
      × (emit_srh_children pid pkt off srh_order kids ≡ some kids')
      × (kids' srh_segment ≡ kids srh_segment ++ segs)
      × (kids' opt ≡ kids opt ++ map (contained pid 43) recs)
      × All (IsSegmentRow pkt pid srh_order) segs
unfolding emit_srh_children
emit_srh_children-grown pid pkt off srh_order kids fits =
    let r = SrhRows-of pkt pid off srh_order fits in
    let opts = map (contained pid 43) r.recs in
    let rows = tagged srh_segment r.segs ++ tagged opt opts in
    let (kids', run, all) = append_rows rows kids in
    (
      r.segs,
      r.recs,
      kids',
      r.emits Ipv6ChildTables append_row kids ∙ run,
      all srh_segment
          ∙ ap (λ t. kids srh_segment ++ t)
              (rows_of-tagged_here srh_segment r.segs (tagged opt opts)
                ∙ ap (λ t. r.segs ++ t) (rows_of-tagged_none opt opts srh_segment refl)
                ∙ append-nil r.segs),
      all opt
          ∙ ap (λ t. kids opt ++ t)
              (rows_of-tagged_there srh_segment r.segs (tagged opt opts) opt refl
                ∙ rows_of-tagged_all opt opts),
      r.from,
    )

-- The emission of an options header whose fixed part lies inside the packet returns without a fault,
-- whatever its length claims, leaves the segment table as it is, and adds one row for each option
-- that for_each_opt visits, in order, with the packet's id, the container, and the option's type and
-- length.
pub emit_opt_children-grown :
    (pid : ℕ) (pkt : List ℕ) (off container : ℕ) (kids : Ipv6ChildTables)
    → off + spec_size ipv6_ext_opt_spec ≤ length pkt
    → (recs : List TlvRecord) × (kids' : Ipv6ChildTables) × (emit_opt_children pid pkt off container
          kids
        ≡ some kids')
      × (kids' srh_segment ≡ kids srh_segment)
      × (kids' opt ≡ kids opt ++ map (λ r. contained_row pid container r.type r.len) recs)
      × ((S : Type 0) (on_opt : S → ℕ → ℕ → Option S) (s : S)
          → for_each_opt pkt off on_opt s ≡ fold_list (seen_record on_opt) s recs)
unfolding emit_opt_children
emit_opt_children-grown pid pkt off container kids fits =
    let (recs, emits, counts, folds) = opt_rows-run_rows pkt pid off container fits in
    let rows = map (contained pid container) recs in
    let (kids', run, all) = append_rows (tagged opt rows) kids in
    (
      recs,
      kids',
      emits Ipv6ChildTables append_row kids ∙ run,
      all srh_segment
          ∙ ap (λ t. kids srh_segment ++ t) (rows_of-tagged_none opt rows srh_segment refl)
          ∙ append-nil (kids srh_segment),
      all opt ∙ ap (λ t. kids opt ++ t) (rows_of-tagged_all opt rows),
      folds,
    )
