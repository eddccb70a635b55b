-- ===== src/Dag/Children/Ipv6/Regions.antt =====
-- ipv6_children.hpp: a traversal visits the same children whatever the callbacks are, and stays
-- inside the packet however the header lies about its lengths.
use nanotins.Shared.{ℕ, zero, suc, ◌+◌, ◌-◌, ◌*◌, ◌≤◌, ◌≡◌, refl, arith, List, [], ◌∷◌}
use nanotins.Shared.{length, All, All-map, Option, some, leb, ◌>>=◌, >>=-same}
use nanotins.Shared.{Bool-cases, Option-cases, inl, inr}
use nanotins.Shared.Bits.{u8}
use nanotins.WireSpec.{spec_size}
use nanotins.WireSpec.Bounds.{view-IsRead}
use nanotins.WireSpec.Protocols.{ipv6_srh_spec, ipv6_ext_opt_spec}
use nanotins.Tlv.{TlvRecord, TlvPad, tlv_records, repeat_at}
use nanotins.Tlv.Bounds.{repeat_at_iff}
use nanotins.Tlv.Walk.{tlv_count-records}
use nanotins.Dag.Children.{fold_list, visit_records-records_loop}
use nanotins.Dag.Children.Ipv6.{
  clamped_end, visit_region, visit_segments, for_each_srh_child, for_each_opt,
}

-- A segment as the callback sees it: its index and where its 16 bytes start.
abbrev pub Segment : Type 0
Segment = ℕ × ℕ

abbrev pub seen_segment {ℓ} : {S : Type ℓ} → (S → ℕ → ℕ → Option S) → S → Segment → Option S
seen_segment on s g = on s g.0 g.1

abbrev pub seen_record {ℓ} : {S : Type ℓ} → (S → ℕ → ℕ → Option S) → S → TlvRecord → Option S
seen_record on s r = on s r.type r.len

clamped_end-inside : (pkt : List ℕ) (off n : ℕ) → clamped_end pkt off n ≤ length pkt
clamped_end-inside pkt off n = ground arith

-- The records of a region.
record RegionRecords (pkt : List ℕ) (start end : ℕ) : Type 1 where
  records : List TlvRecord
  folds :
      (S : Type 0) (on : S → TlvRecord → Option S) (s : S)
      → visit_region pkt start end on s ≡ fold_list on s records

visit_region-RegionRecords :
    (pkt : List ℕ) (start end : ℕ) → end ≤ length pkt → RegionRecords pkt start end
unfolding visit_region tlv_records
visit_region-RegionRecords pkt start end inside = elim (Bool-cases (leb end start)) [
  | inl none_left ↦ record { records = []; folds = λ S on s. rw none_left refl }
  | inr some_left ↦
      let (rs, e, counted, short, within) =
        tlv_count-records pkt start end TlvPad.ipv6_options inside in
      record {
        records = rs;
        folds = λ S on s. rw some_left (visit_records-records_loop _ pkt on _ s rs e);
      }
]

-- The segments of a list, each inside the region.
record SegmentList (seg_base nseg end left : ℕ) : Type 1 where
  segments : List Segment
  few : length segments ≤ left
  inside : All (λ g. g.1 + 16 ≤ end) segments
  folds :
      (S : Type 0) (on : S → ℕ → ℕ → Option S) (s : S)
      → visit_segments seg_base nseg end left on s ≡ fold_list (seen_segment on) s segments

SegmentList-visit_segments : (seg_base nseg end left : ℕ) → SegmentList seg_base nseg end left
unfolding visit_segments
SegmentList-visit_segments seg_base nseg end zero = record {
  segments = [];
  few = omega arith;
  inside = tt;
  folds = λ S on s. refl;
}
SegmentList-visit_segments seg_base nseg end (suc left) =
    elim (Option-cases (repeat_at (some seg_base) nseg 16 end (nseg - suc left))) [
      | inl past ↦ record {
        segments = [];
        few = omega arith;
        inside = tt;
        folds = λ S on s. rw (past, visit_segments) refl;
      }
      | inr (at, found) ↦
          let (first, second) = repeat_at_iff seg_base nseg 16 end (nseg - suc left) at in
          let (low, fits, place) = first found in
          let rest = SegmentList-visit_segments seg_base nseg end left in
          record {
            segments = (u8 (nseg - suc left), at) ∷ rest.segments;
            few = omega (arith, rest.few);
            inside = (omega (arith, fits, place), rest.inside);
            folds = λ S on s.
                rw (found, visit_segments)
                  (>>=-same (on s (u8 (nseg - suc left)) at) (λ s'. rest.folds S on s'));
          }
    ]

-- The children of a segment routing header: when the fixed header lies inside the packet, then,
-- whatever its lengths claim, for_each_srh_child with any callbacks, faults of theirs included, calls
-- the first for the same segments in order, each with its 16 bytes inside the packet, and then the
-- second for the same records.
pub for_each_srh_child-fold_list :
    (pkt : List ℕ) (off : ℕ)
    → off + spec_size ipv6_srh_spec ≤ length pkt
    → (segs : List Segment) × (recs : List TlvRecord) × ((S : Type 0)
          (on_seg on_tlv : S → ℕ → ℕ → Option S) (s : S)
        → for_each_srh_child pkt off on_seg on_tlv s ≡ (
            fold_list (seen_segment on_seg) s segs >>= λ s'.
            fold_list (seen_record on_tlv) s' recs))
      × All (λ g. g.1 + 16 ≤ length pkt) segs
unfolding for_each_srh_child
for_each_srh_child-fold_list pkt off fits =
    let (n, en) = view-IsRead pkt off ipv6_srh_spec "hdr_ext_len" _ refl refl fits in
    let (k, ek) = view-IsRead pkt off ipv6_srh_spec "last_entry" _ refl refl fits in
    let end = clamped_end pkt off n in
    let gs = SegmentList-visit_segments (off + 8) (k + 1) end (k + 1) in
    let rs =
      visit_region-RegionRecords pkt (off + 8 + (k + 1) * 16) end (clamped_end-inside pkt off n) in
    (
      gs.segments,
      rs.records,
      λ S on_seg on_tlv s. rw en (
          rw ek (
            rw (gs.folds S on_seg s) (
              >>=-same (fold_list (seen_segment on_seg) s gs.segments)
                (λ s'. rs.folds S (seen_record on_tlv) s')))),
      All-map (λ g. g.1 + 16 ≤ end) (λ g. g.1 + 16 ≤ length pkt)
          (λ g h. omega (arith, h, clamped_end-inside pkt off n)) gs.segments gs.inside,
    )

-- The options of a Hop-by-Hop or Destination Options header: when its fixed part lies inside the
-- packet, then, whatever its length claims, for_each_opt with any callback calls it for the same
-- records in order.
pub for_each_opt-fold_list :
    (pkt : List ℕ) (off : ℕ)
    → off + spec_size ipv6_ext_opt_spec ≤ length pkt
    → (recs : List TlvRecord) × ((S : Type 0) (on_opt : S → ℕ → ℕ → Option S) (s : S)
        → for_each_opt pkt off on_opt s ≡ fold_list (seen_record on_opt) s recs)
unfolding for_each_opt
for_each_opt-fold_list pkt off fits =
    let (n, en) = view-IsRead pkt off ipv6_ext_opt_spec "hdr_ext_len" _ refl refl fits in
    let rs =
      visit_region-RegionRecords pkt (off + 2) (clamped_end pkt off n)
        (clamped_end-inside pkt off n) in
    (rs.records, λ S on_opt s. rw en (rs.folds S (seen_record on_opt) s))
