-- ===== src/Dag/Children/Visits/Agreement.antt =====
-- ipv6_children.hpp, someip_sd.hpp, ipv6_children_bulk.hpp, someip_sd_bulk.hpp: the one walk that
-- decodes the fixed rows and the children against the passes over each, and against the fills in
-- bulk.
use nanotins.Shared.{ℕ, ◌+◌, ◌<◌, ◌^◌, ◌≡◌, refl, sym, ap, ◌∙◌, arith, List, [], ◌∷◌, length}
use nanotins.Shared.{◌++◌, ◌%◌, All, All-every, Option, none, some, true, ◌>>=◌, >>=-eq-some}
use nanotins.Dag.{Node, walk}
use nanotins.Dag.Nodes.{node_key}
use nanotins.Dag.Trace.{Visit, fold_visits}
use nanotins.Bulk.{Key, Tables, Counts, append_row, decode_all}
use nanotins.Bulk.Layout.{rows_of, rows_of-All}
use nanotins.Bulk.Overlay.{covers}
use nanotins.Bulk.Agreement.{decode_bulk-decode_all}
use nanotins.Dag.Decode.{
  Row, DagPacket, append_visit, dag_decode_packet, dag_decode_all, dag_decode_bulk,
}
use nanotins.Dag.Decode.Passes
use nanotins.Dag.Decode.Bulk.{dag_decode_bulk-dag_decode_all}
use nanotins.Dag.Children.Visits.{
  ChildVisits, decode_child_visit, decode_with_children, decode_children, count_children,
  scatter_children, child_passes, children_bulk, decode_all_with_children,
}
use nanotins.Dag.Children.Visits.Rows.{Agrees, child_rows, child_lawful}
use nanotins.Dag.Children.Visits.Rows

-- A fold that is continued by a pure step, inverted.
fold_IsSome {ℓ κ} :
    {A : Type ℓ} {B : Type κ} (o : Option A) (f : A → B) {b : B}
    → (o >>= λ a. some (f a)) ≡ some b
    → (a : A) × (o ≡ some a)
fold_IsSome none f h = cc
fold_IsSome (some a) f h = (a, refl)

module _ {K R : Type 0} ⦃key : Key K⦄ (v : ChildVisits K R) where
  -- Two visitors that succeed on their own tables succeed side by side.
  fold-decode_child_visit :
      (p : DagPacket) (vs : List Visit) (o o' : v.Carried) (tabs t : Tables Node Row)
      (kids k : Tables K R)
      → fold_visits (append_visit p.packet_id p.bytes) tabs vs ≡ some t
      → fold_visits (v.emit p (Tables K R) append_row) (o, kids) vs ≡ some (o', k)
      → fold_visits (decode_child_visit v p) (o, tabs, kids) vs ≡ some (o', t, k)
  fold-decode_child_visit p [] o o' tabs t kids k h g =
      ap (λ s. s >>= λ t. some (o, t, kids)) h ∙ ap (λ s. s >>= λ x. some (x.0, t, x.1)) g
  fold-decode_child_visit p ((n, q) ∷ vs) o o' tabs t kids k h g =
      let (t1, e1, h1) =
        >>=-eq-some (append_visit p.packet_id p.bytes tabs n q)
          (λ s. fold_visits (append_visit p.packet_id p.bytes) s vs) h in
      let (s1, e2, g1) =
        >>=-eq-some (v.emit p (Tables K R) append_row (o, kids) n q)
          (λ s. fold_visits (v.emit p (Tables K R) append_row) s vs) g in
      rw e1 (rw e2 (fold-decode_child_visit p vs s1.0 o' t1 t s1.1 k h1 g1))

  module _ (agrees : Agrees v) (root : Node) where
    -- The one walk does what the walk for the fixed rows and the walk for the children do.
    pub decode_with_children-split :
        (p : DagPacket) (tabs : Tables Node Row) (kids : Tables K R)
        → (t : Tables Node Row) × (k : Tables K R) × (dag_decode_packet root p tabs ≡ some t)
          × (decode_children v root p kids ≡ some k)
          × (decode_with_children v root p tabs kids ≡ some (t, k))
    unfolding dag_decode_packet decode_children decode_with_children
    decode_with_children-split p tabs kids =
        let c = child_rows v agrees p root in
        let (t0, run, all) = Passes.decode-rows root p tabs in
        let (k0, krun, kall) = Rows.decode-rows v agrees root p kids in
        let walked = c.folds _ (append_visit p.packet_id p.bytes) tabs in
        let kwalked = c.folds _ (v.emit p (Tables K R) append_row) (v.first, kids) in
        let (w, ew) =
          fold_IsSome (walk p.bytes (append_visit p.packet_id p.bytes) root tabs) (λ t. t.0) run in
        let (kw, ekw) =
          fold_IsSome (walk p.bytes (v.emit p (Tables K R) append_row) root (v.first, kids))
            (λ t. (t.0).1) krun in
        let (t, et) =
          fold_IsSome (fold_visits (append_visit p.packet_id p.bytes) tabs c.visits)
            (λ s. (s, c.result)) (sym walked ∙ ew) in
        let (k, ek) =
          fold_IsSome (fold_visits (v.emit p (Tables K R) append_row) (v.first, kids) c.visits)
            (λ s. (s, c.result)) (sym kwalked ∙ ekw) in
        (
          t,
          k.1,
          ap (λ w. w >>= λ x. some x.0) (walked ∙ ap (λ w. w >>= λ x. some (x, c.result)) et),
          ap (λ w. w >>= λ x. some (x.0).1) (kwalked ∙ ap (λ w. w >>= λ x. some (x, c.result)) ek),
          rw (c.folds _ (decode_child_visit v p) (v.first, tabs, kids))
              (rw (fold-decode_child_visit p c.visits v.first k.0 tabs t kids k.1 et ek) refl),
        )

    -- On every packet the decode with children returns: its fixed tables are those of the decode
    -- without children, each child table gains rows of its own kind behind the ones it holds, and the
    -- count pass answers the number of those rows, modulo 2^32.
    pub count-decode_with_children :
        (p : DagPacket) (tabs : Tables Node Row) (kids : Tables K R)
        → (t : Tables Node Row) × (k : Tables K R) × (c : Counts K) × (dag_decode_packet root p tabs
            ≡ some t)
          × (decode_with_children v root p tabs kids ≡ some (t, k))
          × (count_children v root p.bytes ≡ some c)
          × ((n : K)
              → (new : List R) × (k n ≡ kids n ++ new)
                × (c n ≡ length new % 2 ^ 32)
                × All (v.Takes n) new)
    count-decode_with_children p tabs kids =
        let (t, k, e, ek, both) = decode_with_children-split p tabs kids in
        let (k', ek', all) = Rows.decode-rows v agrees root p kids in
        let (c, counted, each) = Rows.count-rows v agrees root p in
        let same : some k' ≡ some k = sym ek' ∙ ek in
        let eq : k' ≡ k = cc same in
        let rows = Rows.packet_rows v agrees root p in
        (
          t,
          k,
          c,
          e,
          both,
          counted,
          λ n. (
            rows_of n rows,
            ap (λ f. f n) (sym eq) ∙ all n,
            each n,
            rows_of-All v.Takes rows n (child_rows v agrees p root).typed,
          ),
        )

    -- The scatter writes what the decode appends: where the decode of a packet fills empty child
    -- tables with `new`, the scatter from bases on replaces as many rows of sized tables by `new`,
    -- without a fault, and leaves the rows before and behind. The rows up to there are fewer than
    -- 2^32 in each table.
    pub scatter-decode_with_children :
        (p : DagPacket) (tabs t : Tables Node Row) (new pre fill post : Tables K R)
        → decode_with_children v root p tabs (λ n. []) ≡ some (t, new)
        → ((n : K) → length (fill n) ≡ length (new n))
        → ((n : K) → length (pre n) + length (new n) < 2 ^ 32)
        → (out : Tables K R) × (scatter_children v root p
              (λ n. length (pre n))
              (λ n. pre n ++ (fill n ++ post n))
            ≡ some out)
          × ((n : K) → out n ≡ pre n ++ (new n ++ post n))
    scatter-decode_with_children p tabs t new pre fill post decoded room small =
        let (t', k, e, ek, both) = decode_with_children-split p tabs (λ n. []) in
        let (k', ek', all) = Rows.decode-rows v agrees root p (λ n. []) in
        let kept : some k ≡ some new = ap (λ o. o >>= λ x. some x.1) (sym both ∙ decoded) in
        let same : k' ≡ new = cc (sym ek' ∙ ek ∙ kept) in
        let rows : (n : K) → rows_of n (Rows.packet_rows v agrees root p) ≡ new n =
          λ n. sym (all n) ∙ ap (λ f. f n) same in
        let (out, run, each) =
          Rows.scatter-rows v agrees root p pre fill post (λ n. length (pre n))
            (λ n. pre n ++ (fill n ++ post n))
            (record {
              held = λ n. refl;
              cursor = λ n. refl;
              room = λ n. room n ∙ ap length (sym (rows n));
              small = λ n. omega (arith, small n, room n);
            }) in
        (out, run, λ n. each n ∙ ap (λ r. pre n ++ (r ++ post n)) (rows n))

    pub decode_all-split :
        (pkts : List DagPacket) (tabs t : Tables Node Row) (kids k : Tables K R)
        → decode_all_with_children v root pkts tabs kids ≡ some (t, k)
        → (dag_decode_all root pkts tabs ≡ some t)
          × (decode_all (child_passes v root) pkts kids ≡ some k)
    unfolding decode_all_with_children decode_all
    decode_all-split [] tabs t kids k h =
        (ap (λ s. s >>= λ x. some x.0) h, ap (λ s. s >>= λ x. some x.1) h)
    decode_all-split (p ∷ ps) tabs t kids k h =
        let (t1, k1, e, ek, both) = decode_with_children-split p tabs kids in
        let (r, rk) = decode_all-split ps t1 t k1 k (rw both at h) in (rw e r, rw ek rk)

    -- One walk per packet against the two fills in bulk: when every table that the decode of the
    -- packets one after the other fills is shorter than 2^32 rows, then for any orders in which the
    -- executors run the kernels, each of which names each packet at least once and nothing else, the
    -- fill in bulk of the fixed tables and that of the child tables run without a fault and leave the
    -- same tables.
    pub bulk-decode_all_with_children :
        (pkts : List DagPacket) (order order' : List ℕ) (tabs t : Tables Node Row)
        (kids k : Tables K R)
        → decode_all_with_children v root pkts tabs kids ≡ some (t, k)
        → ((n : Node) → length (t n) < 2 ^ 32)
        → ((n : K) → length (k n) < 2 ^ 32)
        → All (λ j. j < length pkts) order
        → covers (length pkts) order ≡ true
        → All (λ j. j < length pkts) order'
        → covers (length pkts) order' ≡ true
        → (dag_decode_bulk root pkts order tabs ≡ some t)
          × (children_bulk v root pkts order' kids ≡ some k)
    bulk-decode_all_with_children pkts order order' tabs t kids k h small smallk inside all inside'
          all' =
        let (r, rk) = decode_all-split pkts tabs t kids k h in
        (
          dag_decode_bulk-dag_decode_all root pkts order tabs t r small inside all,
          decode_bulk-decode_all (child_lawful v agrees root) pkts order' kids k
              (All-every (λ p. tt) pkts) rk smallk inside' all',
        )
