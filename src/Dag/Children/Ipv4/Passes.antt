-- ===== src/Dag/Children/Ipv4/Passes.antt =====
-- ipv4_children.hpp: the passes over a packet handle the same options.
use nanotins.Shared.{ℕ, suc, ◌+◌, ◌-◌, ◌*◌, ◌≤◌, ◌≡◌, refl, ◌∙◌, arith, List, [], ◌∷◌}
use nanotins.Shared.{All, length, Option, some, leb, if◌then◌else◌}
use nanotins.Shared.{Bool-cases, inl, inr, map, >>=-same}
use nanotins.WireSpec.{spec_size}
use nanotins.WireSpec.Bounds.{view-IsRead}
use nanotins.WireSpec.Protocols.{ipv4_spec}
use nanotins.Tlv.{TlvRecord, TlvPad, tlv_records}
use nanotins.Tlv.Walk.{tlv_count-records}
use nanotins.Dag.{Node, ipv4, spec}
use nanotins.Bulk.Rows.{run_rows, without_row}
use nanotins.Dag.Children.Visits.Rows.{Agrees}
use nanotins.Dag.Children.{visit_records, fold_list, visit_records-records_loop}
use nanotins.Dag.Children.Ipv4.{
  on_wire, for_each_ipv4_opt, Ipv4ChildTable, opt, OptRow, at_ipv4, ipv4_visits,
}

-- An option as the callback sees it: its type and on-wire length.
abbrev pub Opt : Type 0
Opt = ℕ × ℕ

abbrev pub seen {ℓ} : {S : Type ℓ} → (S → ℕ → ℕ → Option S) → S → Opt → Option S
seen on s o = on s o.0 o.1

fold_list-map {ℓ} :
    {S : Type ℓ} (on : S → ℕ → ℕ → Option S) (s : S) (rs : List TlvRecord)
    → fold_list (λ s r. on s r.type (on_wire r)) s rs
      ≡ fold_list (seen on) s (map (λ r. (r.type, on_wire r)) rs)
fold_list-map on s [] = refl
fold_list-map on s (r ∷ rs) = >>=-same (on s r.type (on_wire r)) (λ s'. fold_list-map on s' rs)

module _ (pkt : List ℕ) where
  -- What is visited at a node, whatever the callback is.
  pub record Handled (n : Node) (off : ℕ) : Type 1 where
    opts : List Opt
    folds :
        (S : Type 0) (on : S → ℕ → ℕ → Option S) (s : S)
        → at_ipv4 pkt on s n off ≡ fold_list (seen on) s opts

  region_Handled :
      (off end : ℕ)
      → end ≤ length pkt
      → (opts : List Opt) × ((S : Type 0) (on : S → ℕ → ℕ → Option S) (s : S)
          → visit_records
              (suc (end - (off + 20)))
              pkt
              (λ s r. on s r.type (on_wire r))
              (record { p = some (off + 20); end = end; pad = TlvPad.ipv4_options })
              s
            ≡ fold_list (seen on) s opts)
  unfolding tlv_records
  region_Handled off end inside =
      let (rs, e, counted, short, within) =
        tlv_count-records pkt (off + 20) end TlvPad.ipv4_options inside in
      (
        map (λ r. (r.type, on_wire r)) rs,
        λ S on s.
            visit_records-records_loop _ pkt (λ s r. on s r.type (on_wire r)) _ s rs e
            ∙ fold_list-map on s rs,
      )

  header-Handled : (off : ℕ) → off + spec_size ipv4_spec ≤ length pkt → Handled ipv4 off
  unfolding at_ipv4 for_each_ipv4_opt
  header-Handled off fits =
      let (ihl, e) = view-IsRead pkt off ipv4_spec "ihl" _ refl refl fits in
      let end = if leb (off + ihl * 4) (length pkt) then off + ihl * 4 else length pkt in
      elim (Bool-cases (leb (ihl * 4) 20)) [
        | inl bare ↦ record { opts = []; folds = λ S on s. rw e (rw bare refl) }
        | inr long ↦ elim (Bool-cases (leb end (off + 20))) [
          | inl cut ↦ record { opts = []; folds = λ S on s. rw e (rw long (rw cut refl)) }
          | inr room ↦
              let (opts, folds) = region_Handled off end (ground arith) in
              record { opts = opts; folds = λ S on s. rw e (rw long (rw room (folds S on s))) }
        ]
      ]

  node_Handled : (n : Node) (off : ℕ) → off + spec_size (spec n) ≤ length pkt → Handled n off
  unfolding at_ipv4
  node_Handled ipv4 off fits = header-Handled off fits
  node_Handled n off fits = record { opts = []; folds = λ S on s. refl }

-- The rows that options make.
abbrev rows_for : ℕ → List Opt → List (Ipv4ChildTable × OptRow)
rows_for pid [] = []
rows_for pid ((t, l) ∷ os) = (opt, (pid, t, l)) ∷ rows_for pid os

fold_list-rows_for :
    (pid : ℕ) (S : Type 0) (on : S → Ipv4ChildTable → OptRow → Option S) (s : S) (os : List Opt)
    → fold_list (seen (λ t type len. on t opt (pid, type, len))) s os
      ≡ run_rows on s (rows_for pid os)
fold_list-rows_for pid S on s [] = refl
fold_list-rows_for pid S on s ((t, l) ∷ os) =
    >>=-same (on s opt (pid, t, l)) (λ s'. fold_list-rows_for pid S on s' os)

rows_for-Takes : (pid : ℕ) (os : List Opt) → All (λ e. ipv4_visits.Takes e.0 e.1) (rows_for pid os)
rows_for-Takes pid [] = tt
rows_for-Takes pid (o ∷ os) = (tt, rows_for-Takes pid os)

-- The passes handle the same rows at every node.
pub ipv4-Agrees : Agrees ipv4_visits
ipv4-Agrees p o n off fits =
    let h = node_Handled p.bytes n off fits in
    record {
      rows = rows_for p.packet_id h.opts;
      carried = o;
      emits = λ S on s.
          rw (h.folds S (λ t type len. on t opt (p.packet_id, type, len)) s)
            (rw (fold_list-rows_for p.packet_id S on s h.opts) refl);
      counts = λ S g s.
          h.folds S (λ t type len. some (g t opt)) s
          ∙ fold_list-rows_for p.packet_id S (without_row g) s h.opts;
      typed = rows_for-Takes p.packet_id h.opts;
    }
