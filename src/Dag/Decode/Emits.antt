-- ===== src/Dag/Decode/Emits.antt =====
-- dag_decode.hpp, dag_bulk.hpp: the rows that a packet emits. Every pass over a packet handles these
-- rows in their order.
use nanotins.Shared.{ℕ, ◌+◌, ◌≡◌, refl, ◌∙◌, List, [], ◌∷◌, Option, some, ◌>>=◌, All}
use nanotins.Shared.{>>=-same}
use nanotins.WireSpec.{Spec, read_field}
use nanotins.WireSpec.Bounds.{IsRead, spec_size-reads}
use nanotins.Dag.{Node, spec, walk, WalkResult}
use nanotins.Dag.Trace.{Visit, PathOf, fold_visits, walk-PathOf, walk-fold_visits}
use nanotins.Dag.Decode.{Row, read_fields}
use nanotins.Bulk.Rows.{run_rows, without_row}

abbrev pub Emit : Type 0
Emit = Node × Row

read_fields-IsRead :
    (pkt : List ℕ) (p : ℕ) (fs : Spec)
    → All (λ f. IsRead (read_field pkt p f)) fs
    → IsRead (read_fields pkt p fs)
unfolding read_fields
read_fields-IsRead pkt p [] h = ([], refl)
read_fields-IsRead pkt p (f ∷ fs) ((v, e), h) =
    let (vs, es) = read_fields-IsRead pkt p fs h in (v ∷ vs, rw e (rw es))

module _ (pid : ℕ) (pkt : List ℕ) where
  abbrev pub reading {ℓ} : {S : Type ℓ} → (S → Node → Row → Option S) → S → Node → ℕ → Option S
  reading f s n off = read_fields pkt off (spec n) >>= λ vs. f s n (pid, vs)

  abbrev pub counting {ℓ} : {S : Type ℓ} → (S → Node → S) → S → Node → ℕ → Option S
  counting g s n off = some (g s n)

  -- The rows of the visits of a path.
  record RowsOf (vs : List Visit) : Type 1 where
    rows : List Emit
    reads :
        (S : Type 0) (f : S → Node → Row → Option S) (s : S)
        → fold_visits (reading f) s vs ≡ run_rows f s rows
    counts :
        (S : Type 0) (g : S → Node → S) (s : S)
        → fold_visits (counting g) s vs ≡ run_rows (without_row g) s rows

  RowsOf-path :
      (o : Option Node) (off : ℕ) (vs : List Visit) (last : ℕ)
      → PathOf pkt o off vs last
      → RowsOf vs
  RowsOf-path o off [] last p = record { rows = []; reads = λ S f s. refl; counts = λ S g s. refl }
  RowsOf-path o off ((n, q) ∷ vs) last (e, at, fits, (a, ea, long, (o', en, rest))) =
      let r = RowsOf-path o' (q + a) vs last rest in
      let (v, read) = read_fields-IsRead pkt q (spec n) (spec_size-reads pkt q (spec n) fits) in
      record {
        rows = (n, (pid, v)) ∷ r.rows;
        reads = λ S f s. rw read (>>=-same (f s n (pid, v)) (λ s'. r.reads S f s'));
        counts = λ S g s. r.counts S g (g s n);
      }

  -- What a packet emits: its rows, and the result of the walk. A pass that reads the fields and one
  -- that does not are runs over the rows.
  pub record Emits (root : Node) : Type 1 where
    pub rows : List Emit
    pub result : WalkResult
    pub reads :
        (S : Type 0) (f : S → Node → Row → Option S) (s : S)
        → walk pkt (reading f) root s ≡ (run_rows f s rows >>= λ s'. some (s', result))
    pub counts :
        (S : Type 0) (g : S → Node → S) (s : S)
        → walk pkt (counting g) root s
          ≡ (run_rows (without_row g) s rows >>= λ s'. some (s', result))

  pub emits : (root : Node) → Emits root
  emits root =
      let (vs, r, e, path, short, steps) = walk-PathOf pkt root in
      let t = RowsOf-path (some root) 0 vs r.consumed path in
      record {
        rows = t.rows;
        result = r;
        reads = λ S f s. walk-fold_visits pkt root S (reading f) s ∙ rw e (rw (t.reads S f s) refl);
        counts =
            λ S g s. walk-fold_visits pkt root S (counting g) s ∙ rw e (rw (t.counts S g s) refl);
      }
