-- ===== src/Pdus/Remainder.antt =====
-- protocol_decode.hpp: the result that scatter_packet returns, from which the caller makes the
-- remainder rows.
use nanotins.Shared.{ℕ, ◌≡◌, sym, ap, ◌∙◌, List, map, some, ◌>>=◌, >>=-eq-some}
use nanotins.Bulk.{Counts, append_row}
use nanotins.Bulk.Rows.{run_rows, append_rows}
use nanotins.Pdus.{Pdu, Bytes}
use nanotins.Pdus.Columns.{pdu_key}
use nanotins.Pdus.Layers.{DecodedPdus, add_pdu}
use nanotins.Pdus.Walk.{WalkResult, walk_packet, scatter_pdu, scatter_packet}
use nanotins.Pdus.Chain.{decode_layers, walk_packet-decode_layers}
use nanotins.Pdus.Trace.{Inside, Run-walk_packet}
use nanotins.Pdus.Passes.{row_for, run_rows-row_for}

-- The result of the scatter pass is the decode by layers' own: for a packet that lies in memory, when
-- scatter_packet finds room for its rows and returns, decode_l2, decode_l3 and decode_l4 called one
-- after the other on the same packet run without a fault, whatever the columns hold, and give the
-- same payload offset, ports and L4 flag.
pub scatter_packet-decode_layers :
    (mem : List ℕ) (pid link_type : ℕ) (pkt : Bytes) (base : Counts Pdu) (sink t out : DecodedPdus)
    (r : WalkResult)
    → Inside mem pkt
    → scatter_packet mem pid link_type pkt base sink ≡ some (t, r)
    → (out' : DecodedPdus) × (decode_layers mem pid link_type pkt out ≡ some (out', r))
unfolding scatter_packet
scatter_packet-decode_layers mem pid link_type pkt base sink t out r inside h =
    let w = Run-walk_packet mem link_type pkt inside in
    let (s, walked, split) =
      >>=-eq-some (walk_packet mem (scatter_pdu mem pid) link_type pkt (base, sink))
        (λ s. some ((s.0).1, s.1)) h in
    let (s', ran, ended) =
      >>=-eq-some (run_rows (scatter_pdu mem pid) (base, sink) w.headers)
        (λ s'. some (s', w.result)) (sym (w.folds _ (scatter_pdu mem pid) (base, sink)) ∙ walked) in
    let result : some w.result ≡ some r =
      ap (λ o. o >>= λ x. some x.1) ended ∙ ap (λ o. o >>= λ x. some x.1) split in
    let (out', appended, all) = append_rows (map (row_for pid) w.headers) out in
    (
      out',
      sym (walk_packet-decode_layers mem pid link_type pkt out)
          ∙ w.folds _ (add_pdu pid) out
          ∙ rw (run_rows-row_for append_row pid out w.headers)
              (rw appended (ap (λ o. o >>= λ x. some (out', x)) result)),
    )
