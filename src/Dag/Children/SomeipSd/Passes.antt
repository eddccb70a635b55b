-- ===== src/Dag/Children/SomeipSd/Passes.antt =====
-- someip_sd.hpp: the rows of a message's children, which every pass handles in their order.
use nanotins.Shared.{ℕ, ◌+◌, ◌≤◌, ◌≡◌, refl, ◌∙◌, arith, List, [], ◌∷◌, ◌++◌, length, All}
use nanotins.Shared.{
  Option, some, ltb, if◌then◌else◌, not, ◌&&◌, >>=-same, Bool-cases, inl, inr, All-append,
}
use nanotins.Shared.Buffer.{byte_at-lt}
use nanotins.WireSpec.{big}
use nanotins.WireSpec.Bounds.{
  IsRead, IsRead->>=, view-IsRead, read_bytes-IsRead, read_scalar_at-IsRead,
}
use nanotins.WireSpec.Protocols.Someip.{someip_sd_entry_spec}
use nanotins.Bulk.Layout.{tagged}
use nanotins.Bulk.Rows.{run_rows, without_row}
use nanotins.Dag.{someip}
use nanotins.Dag.Children.{fold_list}
use nanotins.Dag.Children.Visits.Rows.{Agrees, NodeRows-none, run_rows-append}
use nanotins.Dag.Children.SomeipSd.{is_v4, is_v6, read_endpoint, sd_decode_endpoint}
use nanotins.Dag.Children.SomeipSd.Tables.{
  read_entry, SdChildTable, entry, option, SdRow, entry_row, option_row, sd_table_key, entry_rows,
  option_rows, emit_sd, count_sd, Takes, sd_visits,
}
use nanotins.Dag.Children.SomeipSd.Visits.{
  Entry, SdOption, seen_entry, seen_option, entry_end, option_end, entry_list,
  for_each_sd_child-fold_list,
}

read_entry-IsRead : (pkt : List ℕ) (at : ℕ) → at + 16 ≤ length pkt → IsRead (read_entry pkt at)
unfolding read_entry
read_entry-IsRead pkt at fits =
    IsRead->>= _ _ (view-IsRead pkt at someip_sd_entry_spec "type" _ refl refl fits) (λ v0.
      IsRead->>= _ _ (view-IsRead pkt at someip_sd_entry_spec "index_1st_opts" _ refl refl fits)
        (λ v1.
          IsRead->>= _ _ (view-IsRead pkt at someip_sd_entry_spec "index_2nd_opts" _ refl refl fits)
            (λ v2.
              IsRead->>= _ _ (view-IsRead pkt at someip_sd_entry_spec "num_opt_1" _ refl refl fits)
                (λ v3.
                  IsRead->>= _ _
                    (view-IsRead pkt at someip_sd_entry_spec "num_opt_2" _ refl refl fits)
                    (λ v4.
                      IsRead->>= _ _
                        (view-IsRead pkt at someip_sd_entry_spec "service_id" _ refl refl fits)
                        (λ v5.
                          IsRead->>= _ _
                            (view-IsRead pkt at someip_sd_entry_spec "instance_id" _ refl refl fits)
                            (λ v6.
                              IsRead->>= _ _
                                (view-IsRead pkt at someip_sd_entry_spec "major_version" _ refl refl
                                  fits)
                                (λ v7.
                                  IsRead->>= _ _
                                    (view-IsRead pkt at someip_sd_entry_spec "ttl" _ refl refl fits)
                                    (λ v8.
                                      IsRead->>= _ _
                                        (view-IsRead pkt at someip_sd_entry_spec "minor_version" _
                                          refl refl fits)
                                        (λ v9. (_, refl)))))))))))

read_endpoint-IsRead :
    (pkt : List ℕ) (opt end n : ℕ) → end ≤ length pkt → IsRead (read_endpoint pkt opt end n)
read_endpoint-IsRead pkt opt end n within = elim (Bool-cases (ltb end (opt + 4 + n + 1 + 1 + 2))) [
  | inl cut ↦ rw cut (_, refl)
  | inr room ↦
      let (a, ea) = read_bytes-IsRead pkt (opt + 4) n (ground arith) in
      let ep = byte_at-lt pkt (opt + 4 + n + 1) (ground arith) in
      let (port, eport) = read_scalar_at-IsRead big pkt (opt + 4 + n + 1 + 1) 0 2 (ground arith) in
      rw room (rw ea (rw ep (rw eport (_, refl))))
]

pub sd_decode_endpoint-IsRead :
    (pkt : List ℕ) (opt type end : ℕ)
    → end ≤ length pkt
    → IsRead (sd_decode_endpoint pkt opt type end)
unfolding sd_decode_endpoint
sd_decode_endpoint-IsRead pkt opt type end within =
    elim (Bool-cases (not (is_v4 type) && not (is_v6 type))) [
      | inl other ↦ rw other (_, refl)
      | inr known ↦
          rw known (read_endpoint-IsRead pkt opt end (if is_v4 type then 4 else 16) within)
    ]

-- The rows of the entries, and those of the options, whatever the callback is.
record TableRows {E : Type 0} (k : SdChildTable) (es : List E)
    (emit : (S : Type 0) → (S → SdChildTable → SdRow → Option S) → S → E → Option S) : Type 1 where
  rows : List SdRow
  emits :
      (S : Type 0) (on : S → SdChildTable → SdRow → Option S) (s : S)
      → fold_list (emit S on) s es ≡ run_rows on s (tagged k rows)
  counts :
      (S : Type 0) (g : S → SdChildTable → S) (s : S)
      → fold_list (λ s e. some (g s k)) s es ≡ run_rows (without_row g) s (tagged k rows)
  typed : All (λ e. Takes e.0 e.1) (tagged k rows)

-- Each element makes one row.
TableRows-each :
    {E : Type 0} (k : SdChildTable) (Ok : E → Type 0)
    (emit : (S : Type 0) → (S → SdChildTable → SdRow → Option S) → S → E → Option S)
    → ((e : E)
        → Ok e
        → (r : SdRow) × ((S : Type 0) (on : S → SdChildTable → SdRow → Option S) (s : S)
            → emit S on s e ≡ on s k r)
          × Takes k r)
    → (es : List E) → All Ok es
    → TableRows k es emit
TableRows-each k Ok emit row [] h = record {
  rows = [];
  emits = λ S on s. refl;
  counts = λ S g s. refl;
  typed = tt;
}
TableRows-each k Ok emit row (e ∷ es) (h, hs) =
    let (r, makes, takes) = row e h in
    let t = TableRows-each k Ok emit row es hs in
    record {
      rows = r ∷ t.rows;
      emits = λ S on s. rw (makes S on s) (>>=-same (on s k r) (λ s'. t.emits S on s'));
      counts = λ S g s. t.counts S g (g s k);
      typed = (takes, t.typed);
    }

module _ (pkt : List ℕ) (pid : ℕ) where
  entries_made :
      (es : List Entry)
      → All (λ e. entry_end e ≤ length pkt) es
      → TableRows entry es (λ S on. seen_entry (entry_rows pkt pid on))
  entries_made =
      TableRows-each entry (λ e. entry_end e ≤ length pkt)
        (λ S on. seen_entry (entry_rows pkt pid on))
        (λ e h.
          let (columns, read) = read_entry-IsRead pkt e.1 h in
          (entry_row pid e.0 columns, λ S on s. rw read refl, tt))

  options_made :
      (os : List SdOption)
      → All (λ o. option_end o ≤ length pkt) os
      → TableRows option os (λ S on. seen_option (option_rows pkt pid (length pkt) on))
  options_made =
      TableRows-each option (λ o. option_end o ≤ length pkt)
        (λ S on. seen_option (option_rows pkt pid (length pkt) on))
        (λ o h.
          let (e, read) = sd_decode_endpoint-IsRead pkt o.1 o.3 (length pkt) (omega arith) in
          (option_row pid o.0 o.2 o.3 e.l4proto e.port e.addr, λ S on s. rw read refl, tt))

-- The passes handle the same rows at every node.
pub sd-Agrees : Agrees sd_visits
unfolding emit_sd count_sd
sd-Agrees p u someip off fits =
    let (count, options, folds, entries_in, options_in) = for_each_sd_child-fold_list p.bytes off in
    let es = entries_made p.bytes p.packet_id (entry_list (off + 24) 0 count) entries_in in
    let os = options_made p.bytes p.packet_id options options_in in
    record {
      rows = tagged entry es.rows ++ tagged option os.rows;
      carried = tt;
      emits = λ S on s.
          rw
            (folds S (entry_rows p.bytes p.packet_id on)
              (option_rows p.bytes p.packet_id (length p.bytes) on) s)
            (rw (es.emits S on s) (
              rw (run_rows-append on s (tagged entry es.rows) (tagged option os.rows)) (
                rw (>>=-same (run_rows on s (tagged entry es.rows)) (λ s'. os.emits S on s'))
                  refl)));
      counts = λ S g s.
          folds S (λ t index at. some (g t entry)) (λ t index at len type. some (g t option)) s
          ∙ rw (es.counts S g s) (
              rw (run_rows-append (without_row g) s (tagged entry es.rows) (tagged option os.rows))
                (>>=-same (run_rows (without_row g) s (tagged entry es.rows))
                  (λ s'. os.counts S g s')));
      typed = All-append _ (tagged entry es.rows) (tagged option os.rows) es.typed os.typed;
    }
sd-Agrees p u n off fits = NodeRows-none sd_visits p u n off (λ S on s. refl) (λ S g s. refl)
