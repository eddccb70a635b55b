-- ===== src/Pdus/Passes.antt =====
-- protocol_decode_bulk.hpp: the passes over one packet agree on the rows that it emits.
use nanotins.Shared.{
  ℕ, ◌+◌, ◌<◌, ◌≤◌, ◌^◌, ◌≡◌, refl, sym, ap, ◌∙◌, arith, List, [], ◌∷◌, ◌++◌, map, length, Option,
}
use nanotins.Shared.{none, some, leb, leb→le, ◌>>=◌, >>=-same, Bool-cases, inl, inr}
use nanotins.Shared.Bits.{u32, u64}
use mathlib.Core.List.{append_assoc, append-nil}
use nanotins.Bulk.{Counts, bump, append_row, scatter_row}
use nanotins.Bulk.Layout.{rows_of}
use nanotins.Bulk.Rows.{run_rows, without_row, append_rows, count_rows}
use nanotins.Bulk.Scatter.{Ready, scatter_rows}
use nanotins.Bulk.Bases.{Lawful}
use nanotins.Pdus.{Pdu, Bytes, advance_ptr}
use nanotins.Pdus.Columns.{pdu_key}
use nanotins.Pdus.Layers.{PduRow, DecodedPdus}
use nanotins.Pdus.Walk.{WalkResult, walk_packet, decode_packet, count_packet, scatter_packet}
use nanotins.Pdus.Trace.{Header, PtrInside, Inside, Run, Run-walk_packet}
use nanotins.Pdus.Window.{PacketRef, WindowPacket, packet_bytes, window_passes}

-- A header as a row of its column.
abbrev pub row_for : ℕ → Header → Pdu × PduRow
row_for pid h = (h.0, (pid, h.1))

pub run_rows-row_for {ℓ} :
    {S : Type ℓ} (f : S → Pdu → PduRow → Option S) (pid : ℕ) (s : S) (hs : List Header)
    → run_rows (λ s k raw. f s k (pid, raw)) s hs ≡ run_rows f s (map (row_for pid) hs)
run_rows-row_for f pid s [] = refl
run_rows-row_for f pid s ((k, raw) ∷ hs) =
    >>=-same (f s k (pid, raw)) (λ s'. run_rows-row_for f pid s' hs)

-- The visitor that lists the rows.
pub record_row : List (Pdu × PduRow) → Pdu → PduRow → Option (List (Pdu × PduRow))
record_row es k r = some (es ++ ((k, r) ∷ []))

run_rows-record_row : (acc es : List (Pdu × PduRow)) → run_rows record_row acc es ≡ some (acc ++ es)
unfolding record_row
run_rows-record_row acc [] = ap some (sym (append-nil acc))
run_rows-record_row acc (e ∷ es) =
    run_rows-record_row (acc ++ (e ∷ [])) es ∙ ap some (append_assoc acc (e ∷ []) es)

abbrev or_empty : {A : Type 0} → Option (List A × WalkResult) → List A
or_empty none = []
or_empty (some t) = t.0

module _ (mem : List ℕ) (window : Bytes) (inside : Inside mem window) where
  -- The offset and the size of a packet do not wrap.
  abbrev pub Unwrapped : PacketRef → Type 0
  Unwrapped r = r.off + r.size < 2 ^ 64

  packet_bytes-Inside : (r : PacketRef) → Unwrapped r → Inside mem (packet_bytes window r)
  unfolding packet_bytes
  packet_bytes-Inside r small = elim (Bool-cases (leb (u64 (r.off + r.size)) window.len)) [
    | inr e ↦ rw e refl
    | inl e ↦ rw e (go window.ptr inside (leb→le _ _ e))
  ]
    where
      go :
          (o : Option ℕ)
          → PtrInside mem o window.len
          → u64 (r.off + r.size) ≤ window.len
          → PtrInside mem (advance_ptr o r.off) r.size
      go none h fits = omega arith
      go (some q) h fits = omega arith

  -- The rows that the packet emits.
  abbrev rows : WindowPacket → List (Pdu × PduRow)
  rows p = or_empty (
      walk_packet mem (λ es k raw. record_row es k (p.packet_id, raw)) (p.ref).link_type
        (packet_bytes window p.ref) [])

  module _ (p : WindowPacket) (small : Unwrapped p.ref) where
    abbrev run :
        Run (λ S visit s. walk_packet mem visit (p.ref).link_type (packet_bytes window p.ref) s)
    run =
        Run-walk_packet mem (p.ref).link_type (packet_bytes window p.ref)
          (packet_bytes-Inside p.ref small)

    rows-headers : rows p ≡ map (row_for p.packet_id) run.headers
    rows-headers = rw (run.folds _ (λ es k raw. record_row es k (p.packet_id, raw)) []) (
        rw (run_rows-row_for record_row p.packet_id [] run.headers)
          (rw (run_rows-record_row [] (map (row_for p.packet_id) run.headers)) refl))

    -- A pass that writes rows is a run over them.
    walk_packet-rows :
        (S : Type 0) (f : S → Pdu → PduRow → Option S) (s : S)
        → walk_packet mem
            (λ s k raw. f s k (p.packet_id, raw))
            (p.ref).link_type
            (packet_bytes window p.ref)
            s
          ≡ (run_rows f s (rows p) >>= λ s'. some (s', run.result))
    walk_packet-rows S f s =
        run.folds S (λ s k raw. f s k (p.packet_id, raw)) s
        ∙ rw (run_rows-row_for f p.packet_id s run.headers) (sym (rw rows-headers refl))

    pub decode-rows :
        (tabs : DecodedPdus)
        → (t : DecodedPdus) × (decode_packet mem p.packet_id
              (p.ref).link_type
              (packet_bytes window p.ref)
              tabs
            ≡ some t)
          × ((k : Pdu) → t k ≡ tabs k ++ rows_of k (rows p))
    unfolding decode_packet
    decode-rows tabs =
        let (t, done, all) = append_rows (rows p) tabs in
        (t, rw (walk_packet-rows DecodedPdus append_row tabs) (rw done refl), all)

    pub count-rows :
        (c : Counts Pdu) × (count_packet mem (p.ref).link_type (packet_bytes window p.ref) ≡ some c)
        × ((k : Pdu) → c k ≡ u32 (length (rows_of k (rows p))))
    unfolding count_packet
    count-rows =
        let (c, done, all) = count_rows (rows p) (λ k. 0) (λ k. 0) (λ k. refl) in
        (
          c,
          rw (walk_packet-rows (Counts Pdu) (without_row bump) (λ k. 0)) (rw done refl),
          λ k. omega (arith, all k),
        )

    pub scatter-rows :
        (pre fill post : DecodedPdus) (cur : Counts Pdu) (tabs : DecodedPdus)
        → Ready (rows p) pre fill post cur tabs
        → (t : DecodedPdus) × ((scatter_packet mem p.packet_id
                (p.ref).link_type
                (packet_bytes window p.ref)
                cur
                tabs
              >>= λ t. some t.0)
            ≡ some t)
          × ((k : Pdu) → t k ≡ pre k ++ (rows_of k (rows p) ++ post k))
    unfolding scatter_packet
    scatter-rows pre fill post cur tabs g =
        let (c, t, done, all) = scatter_rows (rows p) pre fill post cur tabs g in
        (
          t,
          rw (walk_packet-rows (Counts Pdu × DecodedPdus) scatter_row (cur, tabs)) (rw done refl),
          all,
        )

  abbrev pub window_lawful : Lawful (window_passes mem window)
  window_lawful = record {
    Valid = λ p. Unwrapped p.ref;
    emits = rows;
    decode_rows = λ p tabs small. decode-rows p small tabs;
    count_rows = count-rows;
    scatter_rows = λ p pre fill post cur tabs small. scatter-rows p small pre fill post cur tabs;
  }
