-- ===== src/Dag/Children/Ipv6/Passes.antt =====
-- ipv6_children.hpp: the rows of a packet's children, which every pass handles in their order.
use nanotins.Shared.{ℕ, ◌+◌, refl, List, ◌++◌, All}
use nanotins.Shared.{[], ◌∷◌, map, All-append}
use nanotins.Tlv.{TlvRecord}
use nanotins.Shared.Bits.{u8}
use nanotins.Bulk.Layout.{tagged}
use nanotins.Dag.{ipv6_routing, ipv6_hop_by_hop, ipv6_dest_opt}
use nanotins.Dag.Children.Visits.Rows.{Agrees, NodeRows-none}
use nanotins.Dag.Children.Ipv6.{
  srh_segment, opt, Ipv6Row, segment_row, contained_row, ipv6_table_key, Takes, emit_ipv6,
  count_ipv6, ipv6_visits,
}
use nanotins.Dag.Children.Ipv6.Rows.{IsSegmentRow, contained, SrhRows-of, opt_rows-run_rows}

Takes-contained :
    (pid container : ℕ) (recs : List TlvRecord)
    → All (λ e. Takes e.0 e.1) (tagged opt (map (contained pid container) recs))
Takes-contained pid container [] = tt
Takes-contained pid container (r ∷ recs) = (tt, Takes-contained pid container recs)

Takes-segments :
    (pkt : List ℕ) (pid srh_order : ℕ) (rows : List Ipv6Row)
    → All (IsSegmentRow pkt pid srh_order) rows
    → All (λ e. Takes e.0 e.1) (tagged srh_segment rows)
Takes-segments pkt pid srh_order [] h = tt
Takes-segments pkt pid srh_order (segment_row p o i a ∷ rows) (h, hs) =
    (tt, Takes-segments pkt pid srh_order rows hs)
Takes-segments pkt pid srh_order (contained_row p c t l ∷ rows) (h, hs) = absurd h

-- The passes handle the same rows at every node.
pub ipv6-Agrees : Agrees ipv6_visits
unfolding emit_ipv6 count_ipv6
ipv6-Agrees p o ipv6_routing off fits =
    let r = SrhRows-of p.bytes p.packet_id off o fits in
    record {
      rows = tagged srh_segment r.segs ++ tagged opt (map (contained p.packet_id 43) r.recs);
      carried = u8 (o + 1);
      emits = λ S on s. rw (r.emits S on s) refl;
      counts = λ S g s. r.counts S g s;
      typed =
          All-append _ (tagged srh_segment r.segs) _
            (Takes-segments p.bytes p.packet_id o r.segs r.from)
            (Takes-contained p.packet_id 43 r.recs);
    }
ipv6-Agrees p o ipv6_hop_by_hop off fits =
    let (recs, emits, counts, folds) = opt_rows-run_rows p.bytes p.packet_id off 0 fits in
    record {
      rows = tagged opt (map (contained p.packet_id 0) recs);
      carried = o;
      emits = λ S on s. rw (emits S on s) refl;
      counts = counts;
      typed = Takes-contained p.packet_id 0 recs;
    }
ipv6-Agrees p o ipv6_dest_opt off fits =
    let (recs, emits, counts, folds) = opt_rows-run_rows p.bytes p.packet_id off 60 fits in
    record {
      rows = tagged opt (map (contained p.packet_id 60) recs);
      carried = o;
      emits = λ S on s. rw (emits S on s) refl;
      counts = counts;
      typed = Takes-contained p.packet_id 60 recs;
    }
ipv6-Agrees p o n off fits = NodeRows-none ipv6_visits p o n off (λ S on s. refl) (λ S g s. refl)
