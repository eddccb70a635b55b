-- ===== src/Dag/Children/Visits/Rows.antt =====
-- ipv6_children.hpp, someip_sd.hpp: the rows of a packet's children. Every pass over the packet
-- handles these rows in their order.
use nanotins.Shared.{ℕ, ◌+◌, ◌≤◌, ◌≡◌, refl, sym, ◌∙◌, arith, List, [], ◌∷◌, ◌++◌, length}
use nanotins.Shared.{All, All-append, Option, some, ◌>>=◌, >>=-same, >>=-assoc}
use nanotins.Shared.Bits.{u32}
use nanotins.WireSpec.{spec_size}
use nanotins.Dag.{Node, spec, walk, WalkResult}
use nanotins.Dag.Trace.{Visit, PathOf, fold_visits, walk-PathOf, walk-fold_visits}
use nanotins.Bulk.{Key, Tables, Counts, append_row, bump, scatter_row}
use nanotins.Bulk.Layout.{rows_of}
use nanotins.Bulk.Rows.{run_rows, without_row, append_rows, count_rows}
use nanotins.Bulk.Scatter.{Ready, scatter_rows}
use nanotins.Bulk.Bases.{Lawful}
use nanotins.Dag.Decode.{DagPacket}
use nanotins.Dag.Children.Visits.{
  ChildVisits, decode_children, count_children, scatter_children, child_passes,
}

pub run_rows-append {ℓ} :
    {S : Type ℓ} {K R : Type 0} (f : S → K → R → Option S) (s : S) (xs ys : List (K × R))
    → run_rows f s (xs ++ ys) ≡ (run_rows f s xs >>= λ s'. run_rows f s' ys)
run_rows-append f s [] ys = refl
run_rows-append f s ((k, r) ∷ xs) ys =
    >>=-same (f s k r) (λ s'. run_rows-append f s' xs ys) ∙ sym (>>=-assoc (f s k r) _ _)

-- The rows that a node emits, whatever the callback is; the count sees their keys.
pub record NodeRows {K R : Type 0} (v : ChildVisits K R) (p : DagPacket) (o : v.Carried) (n : Node)
    (off : ℕ) : Type 1 where
  pub rows : List (K × R)
  pub carried : v.Carried
  pub emits :
      (S : Type 0) (on : S → K → R → Option S) (s : S)
      → v.emit p S on (o, s) n off ≡ (run_rows on s rows >>= λ s'. some (carried, s'))
  pub counts :
      (S : Type 0) (g : S → K → S) (s : S)
      → v.count p.bytes S g s n off ≡ run_rows (without_row g) s rows
  pub typed : All (λ e. v.Takes e.0 e.1) rows

-- At each node whose fixed header lies inside the packet the passes handle the same rows.
abbrev pub Agrees : {K R : Type 0} → ChildVisits K R → Type 1
Agrees v =
    (p : DagPacket) (o : v.Carried) (n : Node) (off : ℕ)
    → off + spec_size (spec n) ≤ length p.bytes
    → NodeRows v p o n off

-- A node without children.
pub NodeRows-none :
    {K R : Type 0} (v : ChildVisits K R) (p : DagPacket) (o : v.Carried) (n : Node) (off : ℕ)
    → ((S : Type 0) (on : S → K → R → Option S) (s : S) → v.emit p S on (o, s) n off ≡ some (o, s))
    → ((S : Type 0) (g : S → K → S) (s : S) → v.count p.bytes S g s n off ≡ some s)
    → NodeRows v p o n off
NodeRows-none v p o n off e c = record { rows = []; carried = o; emits = e; counts = c; typed = tt }

module _ {K R : Type 0} (v : ChildVisits K R) (agrees : Agrees v) (p : DagPacket) where
  record PathRows (o : v.Carried) (vs : List Visit) : Type 1 where
    rows : List (K × R)
    carried : v.Carried
    emits :
        (S : Type 0) (on : S → K → R → Option S) (s : S)
        → fold_visits (v.emit p S on) (o, s) vs ≡ (run_rows on s rows >>= λ s'. some (carried, s'))
    counts :
        (S : Type 0) (g : S → K → S) (s : S)
        → fold_visits (v.count p.bytes S g) s vs ≡ run_rows (without_row g) s rows
    typed : All (λ e. v.Takes e.0 e.1) rows

  PathRows-path :
      (c : v.Carried) (o : Option Node) (off : ℕ) (vs : List Visit) (last : ℕ)
      → PathOf p.bytes o off vs last
      → PathRows c vs
  PathRows-path c o off [] last path = record {
    rows = [];
    carried = c;
    emits = λ S on s. refl;
    counts = λ S g s. refl;
    typed = tt;
  }
  PathRows-path c o off ((n, q) ∷ vs) last (e, at, fits, (a, ea, long, (o', en, rest))) =
      let h = agrees p c n q fits in
      let r = PathRows-path h.carried o' (q + a) vs last rest in
      record {
        rows = h.rows ++ r.rows;
        carried = r.carried;
        emits = λ S on s. rw (h.emits S on s) (
            rw (run_rows-append on s h.rows r.rows) (
              >>=-assoc (run_rows on s h.rows) _ _
              ∙ >>=-same (run_rows on s h.rows) (λ s'. r.emits S on s')
              ∙ sym (>>=-assoc (run_rows on s h.rows) _ _)));
        counts = λ S g s. rw (h.counts S g s) (
            >>=-same (run_rows (without_row g) s h.rows) (λ s'. r.counts S g s')
            ∙ sym (run_rows-append (without_row g) s h.rows r.rows));
        typed = All-append (λ e. v.Takes e.0 e.1) h.rows r.rows h.typed r.typed;
      }

  -- The child rows of a packet, as every pass handles them.
  pub record ChildRows (root : Node) : Type 1 where
    pub rows : List (K × R)
    pub carried : v.Carried
    pub visits : List Visit
    pub result : WalkResult
    pub folds :
        (S : Type 0) (visit : S → Node → ℕ → Option S) (s : S)
        → walk p.bytes visit root s ≡ (fold_visits visit s visits >>= λ s'. some (s', result))
    pub emits :
        (S : Type 0) (on : S → K → R → Option S) (s : S)
        → fold_visits (v.emit p S on) (v.first, s) visits
          ≡ (run_rows on s rows >>= λ s'. some (carried, s'))
    pub counts :
        (S : Type 0) (g : S → K → S) (s : S)
        → fold_visits (v.count p.bytes S g) s visits ≡ run_rows (without_row g) s rows
    pub typed : All (λ e. v.Takes e.0 e.1) rows

  pub child_rows : (root : Node) → ChildRows root
  child_rows root =
      let (vs, r, e, path, short, steps) = walk-PathOf p.bytes root in
      let t = PathRows-path v.first (some root) 0 vs r.consumed path in
      record {
        rows = t.rows;
        carried = t.carried;
        visits = vs;
        result = r;
        folds = λ S visit s. walk-fold_visits p.bytes root S visit s ∙ rw e refl;
        emits = t.emits;
        counts = t.counts;
        typed = t.typed;
      }

-- The passes over a packet's children obey the laws of a fill in bulk.
module _ {K R : Type 0} ⦃key : Key K⦄ (v : ChildVisits K R) (agrees : Agrees v) (root : Node) where
  abbrev pub packet_rows : DagPacket → List (K × R)
  packet_rows p = (child_rows v agrees p root).rows

  pub decode-rows :
      (p : DagPacket) (kids : Tables K R)
      → (t : Tables K R) × (decode_children v root p kids ≡ some t)
        × ((n : K) → t n ≡ kids n ++ rows_of n (packet_rows p))
  unfolding decode_children
  decode-rows p kids =
      let c = child_rows v agrees p root in
      let (t, run, all) = append_rows c.rows kids in
      (
        t,
        rw (c.folds _ (v.emit p (Tables K R) append_row) (v.first, kids))
            (rw (c.emits _ append_row kids) (rw run refl)),
        all,
      )

  pub count-rows :
      (p : DagPacket)
      → (c : Counts K) × (count_children v root p.bytes ≡ some c)
        × ((n : K) → c n ≡ u32 (length (rows_of n (packet_rows p))))
  unfolding count_children
  count-rows p =
      let c = child_rows v agrees p root in
      let (t, run, all) = count_rows c.rows (λ n. 0) (λ n. 0) (λ n. refl) in
      (
        t,
        rw (c.folds _ (v.count p.bytes (Counts K) bump) (λ n. 0))
            (rw (c.counts _ bump (λ n. 0)) (rw run refl)),
        λ n. omega (arith, all n),
      )

  pub scatter-rows :
      (p : DagPacket) (pre fill post : Tables K R) (cur : Counts K) (tabs : Tables K R)
      → Ready (packet_rows p) pre fill post cur tabs
      → (t : Tables K R) × (scatter_children v root p cur tabs ≡ some t)
        × ((n : K) → t n ≡ pre n ++ (rows_of n (packet_rows p) ++ post n))
  unfolding scatter_children
  scatter-rows p pre fill post cur tabs g =
      let c = child_rows v agrees p root in
      let (cur', t, run, all) = scatter_rows c.rows pre fill post cur tabs g in
      (
        t,
        rw (c.folds _ (v.emit p (Counts K × Tables K R) scatter_row) (v.first, (cur, tabs)))
            (rw (c.emits _ scatter_row (cur, tabs)) (rw run refl)),
        all,
      )

  abbrev pub child_lawful : Lawful (child_passes v root)
  child_lawful = record {
    Valid = λ p. Unit;
    emits = packet_rows;
    decode_rows = λ p tabs o. decode-rows p tabs;
    count_rows = λ p o. count-rows p;
    scatter_rows = λ p pre fill post cur tabs o. scatter-rows p pre fill post cur tabs;
  }
