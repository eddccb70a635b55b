-- ===== src/Dag/Children/Ipv6/Rows.antt =====
-- ipv6_children.hpp: the rows of one header's children, which every pass handles in their order.
use nanotins.Shared.{ℕ, ◌+◌, ◌≤◌, ◌≡◌, refl, ◌∙◌, List, [], ◌∷◌, ◌++◌, map}
use nanotins.Shared.{length, All, Option, some, ◌>>=◌, >>=-same}
use nanotins.WireSpec.{spec_size, read_bytes}
use nanotins.WireSpec.Bounds.{read_bytes-IsRead}
use nanotins.WireSpec.Protocols.{ipv6_srh_spec, ipv6_ext_opt_spec}
use nanotins.Tlv.{TlvRecord}
use nanotins.Bulk.Layout.{tagged}
use nanotins.Bulk.Rows.{run_rows, without_row}
use nanotins.Dag.Children.{fold_list}
use nanotins.Dag.Children.Visits.Rows.{run_rows-append}
use nanotins.Dag.Children.Ipv6.{
  Ipv6ChildTable, srh_segment, opt, Ipv6Row, segment_row, contained_row, ipv6_table_key, srh_rows,
  opt_rows, for_each_srh_child, for_each_opt,
}
use nanotins.Dag.Children.Ipv6.Regions.{
  Segment, seen_segment, seen_record, for_each_srh_child-fold_list, for_each_opt-fold_list,
}

-- A row of one of the header's segments, with 16 bytes of the packet.
abbrev pub IsSegmentRow : List ℕ → (pid srh_order : ℕ) → Ipv6Row → Type 0
IsSegmentRow pkt pid srh_order (segment_row p o i address) =
    (p ≡ pid) × (o ≡ srh_order) × ((at : ℕ) × (read_bytes pkt at 16 ≡ some address))
IsSegmentRow pkt pid srh_order (contained_row p c t l) = ⊥

-- The row that an option or a TLV makes.
abbrev pub contained : (pid container : ℕ) → TlvRecord → Ipv6Row
contained pid container r = contained_row pid container r.type r.len

-- The segments' rows, whatever the callback is.
record SegmentRows (pkt : List ℕ) (pid srh_order : ℕ) (segs : List Segment) : Type 1 where
  rows : List Ipv6Row
  emits :
      (S : Type 0) (on : S → Ipv6ChildTable → Ipv6Row → Option S) (s : S)
      → fold_list
          (seen_segment (λ t index at. read_bytes pkt at 16 >>= λ address.
            on t srh_segment (segment_row pid srh_order index address)))
          s
          segs
        ≡ run_rows on s (tagged srh_segment rows)
  counts :
      (S : Type 0) (g : S → Ipv6ChildTable → S) (s : S)
      → fold_list (seen_segment (λ t index at. some (g t srh_segment))) s segs
        ≡ run_rows (without_row g) s (tagged srh_segment rows)
  from : All (IsSegmentRow pkt pid srh_order) rows

segment_rows :
    (pkt : List ℕ) (pid srh_order : ℕ) (segs : List Segment)
    → All (λ g. g.1 + 16 ≤ length pkt) segs
    → SegmentRows pkt pid srh_order segs
segment_rows pkt pid srh_order [] h = record {
  rows = [];
  emits = λ S on s. refl;
  counts = λ S g s. refl;
  from = tt;
}
segment_rows pkt pid srh_order ((index, at) ∷ segs) (fits, h) =
    let (address, read) = read_bytes-IsRead pkt at 16 fits in
    let r = segment_rows pkt pid srh_order segs h in
    let row : Ipv6Row = segment_row pid srh_order index address in
    record {
      rows = row ∷ r.rows;
      emits = λ S on s. rw read (>>=-same (on s srh_segment row) (λ s'. r.emits S on s'));
      counts = λ S g s. r.counts S g (g s srh_segment);
      from = ((refl, refl, (at, read)), r.from);
    }

fold_list-contained {ℓ} :
    (pid container : ℕ) {S : Type ℓ} (on : S → Ipv6ChildTable → Ipv6Row → Option S) (s : S)
    (recs : List TlvRecord)
    → fold_list (seen_record (λ t type len. on t opt (contained_row pid container type len))) s recs
      ≡ run_rows on s (tagged opt (map (contained pid container) recs))
fold_list-contained pid container on s [] = refl
fold_list-contained pid container on s (r ∷ recs) =
    >>=-same (on s opt (contained pid container r))
      (λ s'. fold_list-contained pid container on s' recs)

-- The rows of a header, whatever the callback is, and what the count sees of them.
pub record SrhRows (pkt : List ℕ) (pid off srh_order : ℕ) : Type 1 where
  pub segs : List Ipv6Row
  pub recs : List TlvRecord
  pub emits :
      (S : Type 0) (on : S → Ipv6ChildTable → Ipv6Row → Option S) (s : S)
      → srh_rows pkt pid off srh_order on s
        ≡ run_rows on s (tagged srh_segment segs ++ tagged opt (map (contained pid 43) recs))
  pub counts :
      (S : Type 0) (g : S → Ipv6ChildTable → S) (s : S)
      → for_each_srh_child pkt off
          (λ t index at. some (g t srh_segment))
          (λ t type len. some (g t opt))
          s
        ≡ run_rows
            (without_row g)
            s
            (tagged srh_segment segs ++ tagged opt (map (contained pid 43) recs))
  pub from : All (IsSegmentRow pkt pid srh_order) segs

pub SrhRows-of :
    (pkt : List ℕ) (pid off srh_order : ℕ)
    → off + spec_size ipv6_srh_spec ≤ length pkt
    → SrhRows pkt pid off srh_order
SrhRows-of pkt pid off srh_order fits =
    let (segs, recs, folds, inside) = for_each_srh_child-fold_list pkt off fits in
    let r = segment_rows pkt pid srh_order segs inside in
    let opts = tagged opt (map (contained pid 43) recs) in
    record {
      segs = r.rows;
      recs = recs;
      emits = λ S on s.
          folds S _ (λ t type len. on t opt (contained_row pid 43 type len)) s
          ∙ rw (r.emits S on s) (
              rw (run_rows-append on s (tagged srh_segment r.rows) opts) (
                >>=-same (run_rows on s (tagged srh_segment r.rows))
                  (λ s'. fold_list-contained pid 43 on s' recs)));
      counts = λ S g s.
          folds S _ (λ t type len. some (g t opt)) s
          ∙ rw (r.counts S g s) (
              rw (run_rows-append (without_row g) s (tagged srh_segment r.rows) opts) (
                >>=-same (run_rows (without_row g) s (tagged srh_segment r.rows))
                  (λ s'. fold_list-contained pid 43 (without_row g) s' recs)));
      from = r.from;
    }

pub opt_rows-run_rows :
    (pkt : List ℕ) (pid off container : ℕ)
    → off + spec_size ipv6_ext_opt_spec ≤ length pkt
    → (recs : List TlvRecord) × ((S : Type 0) (on : S → Ipv6ChildTable → Ipv6Row → Option S) (s : S)
        → opt_rows pkt pid off container on s
          ≡ run_rows on s (tagged opt (map (contained pid container) recs)))
      × ((S : Type 0) (g : S → Ipv6ChildTable → S) (s : S)
          → for_each_opt pkt off (λ t type len. some (g t opt)) s
            ≡ run_rows (without_row g) s (tagged opt (map (contained pid container) recs)))
      × ((S : Type 0) (on_opt : S → ℕ → ℕ → Option S) (s : S)
          → for_each_opt pkt off on_opt s ≡ fold_list (seen_record on_opt) s recs)
opt_rows-run_rows pkt pid off container fits =
    let (recs, folds) = for_each_opt-fold_list pkt off fits in
    (
      recs,
      λ S on s.
          folds S (λ t type len. on t opt (contained_row pid container type len)) s
          ∙ fold_list-contained pid container on s recs,
      λ S g s.
          folds S (λ t type len. some (g t opt)) s
          ∙ fold_list-contained pid container (without_row g) s recs,
      folds,
    )
