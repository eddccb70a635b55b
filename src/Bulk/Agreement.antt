-- ===== src/Bulk/Agreement.antt =====
-- dag_bulk.hpp, protocol_decode_bulk.hpp: the fill of the tables in bulk against the decode packet by
-- packet, under any order of the kernels.
use nanotins.Shared.{
  ℕ, zero, suc, ◌+◌, ◌-◌, ◌<◌, ◌≤◌, ◌^◌, ◌≡◌, refl, sym, ap, ◌∙◌, arith, List, [], ◌∷◌, ◌++◌,
}
use nanotins.Shared.{length, length-append, replicate, All, some, true}
use nanotins.Shared.Bits.{u32}
use std.Path.{fun_ext}
use mathlib.Core.List.{append_assoc}
use nanotins.Bulk.{
  Key, Tables, Counts, PacketPasses, decode_all, scatter_kernel, run_kernels, resize_table,
  decode_bulk,
}
use nanotins.Shared.{get_elem?}
use nanotins.Bulk.Layout.{
  rows_of, span, span-same, span-part, length-span, resize_table-grow, span-replicate,
  length-replicate,
}
use nanotins.Bulk.Bases.{
  Lawful, rows_at, block, blocks, IsBase, Bases, prefix_sum-Bases, decode_all-blocks,
}
use nanotins.Bulk.Overlay
use nanotins.Bulk.Overlay.{covers, covers-elem}

packet_at :
    {P K R : Type 0} ⦃key : Key K⦄ {passes : PacketPasses P K R} (law : Lawful passes)
    (pkts : List P) (k : ℕ)
    → All law.Valid pkts
    → k < length pkts
    → (p : P) × (get_elem? pkts k ≡ some p) × (rows_at law pkts k ≡ law.emits p) × law.Valid p
packet_at law [] k ok h = absurd (omega arith)
packet_at law (p ∷ ps) zero (o, ok) h = (p, refl, refl, o)
packet_at law (p ∷ ps) (suc k) (o, ok) h = packet_at law ps k ok (omega arith)

module _ {P K R : Type 0} ⦃key : Key K⦄ {passes : PacketPasses P K R} (law : Lawful passes)
    (pkts : List P) (start : Tables K R) where
  abbrev np : ℕ
  np = length pkts

  abbrev Laid : Overlay.Held law pkts start → Tables K R → Type 0
  Laid b tabs = Overlay.Laid law pkts start b tabs

  abbrev filled : Overlay.Held law pkts start → ℕ → Overlay.Held law pkts start
  filled b k = Overlay.fill_block law pkts start b k

  -- The lengths around block `k`.
  around :
      (b : Overlay.Held law pkts start) (tabs : Tables K R) (k : ℕ) (n : K)
      → Laid b tabs
      → k < np
      → (length (span (b n) 0 k) ≡ length (blocks law pkts k n))
        × (length (span (b n) 0 k) + length (b n k) ≤ length (blocks law pkts np n))
  around b tabs k n l lt =
      let before = length-span (b n) (block law pkts n) 0 k (l.sized n) in
      let here = l.sized n k in
      let whole = ap length (span-part (block law pkts n) k np lt) in
      (
        before,
        omega (
          arith,
          before,
          here,
          whole,
          length-append (blocks law pkts k n)
              (block law pkts n k ++ span (block law pkts n) (suc k) (np - suc k)),
          length-append (block law pkts n k) (span (block law pkts n) (suc k) (np - suc k)),
        ),
      )

  module _ (small : Overlay.Small law pkts start) (bs : List (Counts K)) (ok : All law.Valid pkts)
      (bases : Bases law pkts (λ n. length (start n)) bs) where
    scatter_kernel-Laid :
        (b : Overlay.Held law pkts start) (tabs : Tables K R) (k : ℕ)
        → Laid b tabs
        → k < np
        → (t : Tables K R) × (scatter_kernel passes pkts bs tabs k ≡ some t) × Laid (filled b k) t
    unfolding scatter_kernel
    scatter_kernel-Laid b tabs k l lt =
        let (p, got, same, o) = packet_at law pkts k ok lt in
        let (c, base, is) = bases k lt in
        let pre : Tables K R = λ n. start n ++ span (b n) 0 k in
        let post : Tables K R = λ n. span (b n) (suc k) (np - suc k) in
        let (t, run, all) =
          law.scatter_rows p pre (λ n. b n k) post c tabs o
            (record {
              held = λ n.
                  l.held n
                  ∙ ap (λ r. start n ++ r) (span-part (b n) k np lt)
                  ∙ sym (append_assoc (start n) (span (b n) 0 k) (b n k ++ post n));
              cursor = λ n. omega (
                arith,
                is n,
                (around b tabs k n l lt).0,
                (around b tabs k n l lt).1,
                small n,
                length-append (start n) (span (b n) 0 k),
              );
              room = λ n. l.sized n k ∙ ap (λ es. length (rows_of n es)) same;
              small = λ n. omega (
                arith,
                (around b tabs k n l lt).1,
                small n,
                length-append (start n) (span (b n) 0 k),
              );
            }) in
        (
          t,
          rw got (rw base run),
          record {
            held = λ n.
                all n
                ∙ append_assoc (start n) (span (b n) 0 k) (rows_of n (law.emits p) ++ post n)
                ∙ ap (λ es. start n ++ (span (b n) 0 k ++ (rows_of n es ++ post n))) (sym same)
                ∙ ap (λ r. start n ++ r) (sym (Overlay.fill_block-span law pkts start b k n lt));
            sized = Overlay.fill_block-sized law pkts start b k l.sized;
          },
        )

    run_kernels-Laid :
        (order : List ℕ) (b : Overlay.Held law pkts start) (tabs : Tables K R)
        → Laid b tabs
        → All (λ k. k < np) order
        → (t : Tables K R) × (run_kernels passes pkts bs order tabs ≡ some t)
          × Laid (Overlay.overlay law pkts start b order) t
    unfolding run_kernels
    run_kernels-Laid [] b tabs l h = (tabs, refl, l)
    run_kernels-Laid (k ∷ ks) b tabs l (lt, h) =
        let (t1, run1, l1) = scatter_kernel-Laid b tabs k l lt in
        let (t, run, l') = run_kernels-Laid ks (filled b k) t1 l1 h in (t, rw run1 run, l')

  -- The blocks of the resized tables, before any kernel runs.
  abbrev empty : Overlay.Held law pkts start
  empty n j = replicate (length (block law pkts n j)) (passes.blank n)

  resized-Laid :
      (tot : Counts K)
      → Overlay.Small law pkts start
      → IsBase law pkts (λ n. length (start n)) np tot
      → Laid empty (λ n. resize_table (passes.blank n) (tot n) (start n))
  resized-Laid tot small is = record {
    held = λ n.
        let size : tot n ≡ length (start n) + length (blocks law pkts np n) =
          omega (arith, is n, small n) in
        ap (λ m. resize_table (passes.blank n) m (start n)) size
        ∙ resize_table-grow (passes.blank n) (length (blocks law pkts np n)) (start n)
        ∙ ap (λ r. start n ++ r) (sym (span-replicate (passes.blank n) (block law pkts n) 0 np));
    sized = λ n j. length-replicate (passes.blank n) (length (block law pkts n j));
  }

-- The bulk decode is the decode packet by packet: when every table that the sequential decode fills
-- is shorter than 2^32 rows, then for any order in which the executor runs the kernels, one that
-- names each packet at least once and nothing else, the count pass, the prefix sum, the resize and
-- the scatter pass run without a fault and leave the same tables, with the rows of before in front.
pub decode_bulk-decode_all :
    {P K R : Type 0} ⦃key : Key K⦄ {passes : PacketPasses P K R} (law : Lawful passes)
    (pkts : List P) (order : List ℕ) (tabs result : Tables K R)
    → All law.Valid pkts
    → decode_all passes pkts tabs ≡ some result
    → ((n : K) → length (result n) < 2 ^ 32)
    → All (λ k. k < length pkts) order
    → covers (length pkts) order ≡ true
    → decode_bulk passes pkts order tabs ≡ some result
unfolding decode_bulk
decode_bulk-decode_all {passes = passes} law pkts order tabs result ok seq small within cover =
    let (t, run, all) = decode_all-blocks law pkts tabs ok in
    let same : some t ≡ some result = sym run ∙ seq in
    let eq : t ≡ result = cc same in
    let sizes : Overlay.Small law pkts tabs = λ n. omega (
      arith,
      small n,
      ap (λ f. length (f n)) eq,
      ap length (all n),
      length-append (tabs n) (blocks law pkts (length pkts) n),
    ) in
    let (bs, tot, summed, bases, total) =
      prefix_sum-Bases law pkts (λ n. u32 (length (tabs n))) (λ n. length (tabs n)) (λ n. refl)
        ok in
    let (t', done, laid) =
      run_kernels-Laid law pkts tabs sizes bs ok bases order (empty law pkts tabs)
        (λ n. resize_table (passes.blank n) (tot n) (tabs n))
        (resized-Laid law pkts tabs tot sizes total) within in
    let final : t' ≡ result = fun_ext (λ n.
      laid.held n
      ∙ ap (λ r. tabs n ++ r)
          (span-same _ (block law pkts n) 0 (length pkts) (λ j lo hi.
            Overlay.overlay-elem law pkts tabs order (empty law pkts tabs) n j
              (covers-elem (length pkts) order j cover (omega arith))))
      ∙ sym (all n)
      ∙ ap (λ f. f n) eq) in
    rw summed (done ∙ ap some final)
