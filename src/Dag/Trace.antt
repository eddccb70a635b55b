-- ===== src/Dag/Trace.antt =====
-- spec_dag.hpp: every walk ends without a fault, what it visits is a path of the graph, and a walk
-- with any visitor is a fold of the visitor over that path.
use nanotins.Shared.{ℕ, zero, suc, ◌+◌, ◌≤◌, ◌≡◌, refl, sym, ap, ◌∙◌, arith, List, [], ◌∷◌, length}
use nanotins.Shared.{Option, none, some, true, false, ltb, lt→ltb, ◌++◌, ◌>>=◌}
use nanotins.Shared.{>>=-same, >>=-assoc}
use native.Mathlib.Decide.{dec_le}
use mathlib.Core.List.{append-nil, append_assoc}
use nanotins.WireSpec.{spec_size}
use nanotins.Dag.{Node, spec, advance, next, WalkResult, dispatch_node, walk_loop, walk}
use nanotins.Dag.Headers.{advance-Advances, next-IsRead}

abbrev pub Visit : Type 0
Visit = Node × ℕ

-- The visits from a node at an offset on form a path of the graph: each header lies inside the packet,
-- the next offset is the header's own length further, at least 4 bytes, and the next node is the one
-- that the header selects. `last` is where the path leaves off.
abbrev pub PathOf : List ℕ → Option Node → ℕ → List Visit → ℕ → Type 0
PathOf pkt o off [] last = off ≡ last
PathOf pkt o off ((n, q) ∷ vs) last =
    (o ≡ some n)
    × (q ≡ off)
    × (q + spec_size (spec n) ≤ length pkt)
    × ((a : ℕ) × (advance pkt q n ≡ some a)
        × (4 ≤ a)
        × ((o' : Option Node) × (next pkt q n ≡ some o') × PathOf pkt o' (q + a) vs last))

-- The visitor called at each visit in order.
abbrev pub fold_visits {ℓ} : {S : Type ℓ} → (S → Node → ℕ → Option S) → S → List Visit → Option S
fold_visits visit s [] = some s
fold_visits visit s ((n, off) ∷ vs) = visit s n off >>= λ s'. fold_visits visit s' vs

-- What a loop with `left` steps makes of a packet: its visits, and the result.
pub record Trace (pkt : List ℕ) (left : ℕ) (o : Option Node) (off : ℕ) (r : WalkResult)
    : Type 1 where
  pub visits : List Visit
  pub result : WalkResult
  pub path : PathOf pkt o off visits result.consumed
  pub bounded : length visits ≤ left
  pub counted : result.steps ≡ r.steps + length visits
  pub folds :
      (S : Type 0) (visit : S → Node → ℕ → Option S) (s : S)
      → walk_loop pkt visit left o off s r
        ≡ (fold_visits visit s visits >>= λ s'. some (s', result))

Trace-stop :
    (pkt : List ℕ) (left : ℕ) (o : Option Node) (off : ℕ) (r : WalkResult)
    → off ≡ r.consumed
    → ((S : Type 0) (visit : S → Node → ℕ → Option S) (s : S)
        → walk_loop pkt visit left o off s r ≡ some (s, r))
    → Trace pkt left o off r
Trace-stop pkt left o off r e h = record {
  visits = [];
  result = r;
  path = e;
  bounded = omega arith;
  counted = omega arith;
  folds = h;
}

module _ (pkt : List ℕ) (left : ℕ) (n : Node) (off : ℕ) (r : WalkResult) (a : ℕ) (o' : Option Node)
    (fits : off + spec_size (spec n) ≤ length pkt) (ea : advance pkt off n ≡ some a)
    (en : next pkt off n ≡ some o') where
  -- One round at a header that fits.
  walk_loop_next {ℓ} :
      {S : Type ℓ} (visit : S → Node → ℕ → Option S) (s : S)
      → walk_loop pkt visit (suc left) (some n) off s r ≡ (
          visit s n off >>= λ s'.
          walk_loop pkt visit left o'
            (off + a)
            s'
            (record { consumed = off + a; steps = suc r.steps }))
  unfolding walk_loop dispatch_node
  walk_loop_next {S} visit s = go (visit s n off) refl
    where
      long : ltb (length pkt) (off + spec_size (spec n)) ≡ false
      long = ground arith

      go :
          (v : Option S)
          → visit s n off ≡ v
          → walk_loop pkt visit (suc left) (some n) off s r ≡ (
              visit s n off >>= λ s'.
              walk_loop pkt visit left o'
                (off + a)
                s'
                (record { consumed = off + a; steps = suc r.steps }))
      go none e = rw (long, walk_loop) (rw (e, dispatch_node))
      go (some s') e = rw (long, walk_loop) (rw (e, dispatch_node) (rw ea (rw en)))

Trace-step :
    (pkt : List ℕ) (left : ℕ) (n : Node) (off : ℕ) (r : WalkResult) (a : ℕ) (o' : Option Node)
    → off + spec_size (spec n) ≤ length pkt
    → advance pkt off n ≡ some a
    → 4 ≤ a
    → next pkt off n ≡ some o'
    → Trace pkt left o' (off + a) (record { consumed = off + a; steps = suc r.steps })
    → Trace pkt (suc left) (some n) off r
Trace-step pkt left n off r a o' fits ea long en t = record {
  visits = (n, off) ∷ t.visits;
  result = t.result;
  path = (refl, refl, fits, (a, ea, long, (o', en, t.path)));
  bounded = omega (arith, t.bounded);
  counted = omega (arith, t.counted);
  folds = λ S visit s.
      walk_loop_next pkt left n off r a o' fits ea en visit s
      ∙ >>=-same (visit s n off) (λ s'. t.folds S visit s')
      ∙ sym (>>=-assoc (visit s n off) _ _);
}

walk_loop-Trace :
    (pkt : List ℕ) (left : ℕ) (o : Option Node) (off : ℕ) (r : WalkResult)
    → off ≡ r.consumed
    → Trace pkt left o off r
unfolding walk_loop
walk_loop-Trace pkt zero o off r e = Trace-stop pkt zero o off r e (λ S visit s. refl)
walk_loop-Trace pkt (suc left) none off r e =
    Trace-stop pkt (suc left) none off r e (λ S visit s. refl)
walk_loop-Trace pkt (suc left) (some n) off r e =
    elim (dec_le (off + spec_size (spec n)) (length pkt)) [
      | no short ↦
          let cut : ltb (length pkt) (off + spec_size (spec n)) ≡ true = lt→ltb _ _ (omega arith) in
          Trace-stop pkt (suc left) (some n) off r e (λ S visit s. rw (cut, walk_loop))
      | yes fits ↦
          let (a, ea, long) = advance-Advances pkt off n fits in
          let (o', en) = next-IsRead pkt off n fits in
          Trace-step pkt left n off r a o' fits ea long en
            (walk_loop-Trace pkt left o' (off + a) _ refl)
    ]

-- The visitor that lists the visits.
pub record_visit : List Visit → Node → ℕ → Option (List Visit)
record_visit vs n off = some (vs ++ ((n, off) ∷ []))

fold-record_visit : (acc vs : List Visit) → fold_visits record_visit acc vs ≡ some (acc ++ vs)
unfolding record_visit
fold-record_visit acc [] = ap some (sym (append-nil acc))
fold-record_visit acc (v ∷ vs) =
    fold-record_visit (acc ++ (v ∷ [])) vs ∙ ap some (append_assoc acc (v ∷ []) vs)

-- Every walk of every packet, whatever its bytes are, ends without a read outside the packet, after
-- at most 32 nodes. The visits form a path of the graph from the root at offset 0: each visited
-- header lies inside the packet, the offsets grow by the length that the header states, at least 4,
-- and each next node is the one that the header before it selects. `steps` is the number of visits,
-- and `consumed` is where the path leaves off.
pub walk-PathOf :
    (pkt : List ℕ) (root : Node)
    → (vs : List Visit) × (r : WalkResult) × (walk pkt record_visit root [] ≡ some (vs, r))
      × PathOf pkt (some root) 0 vs r.consumed
      × (length vs ≤ 32)
      × (r.steps ≡ length vs)
unfolding walk
walk-PathOf pkt root =
    let t = walk_loop-Trace pkt 32 (some root) 0 (record { consumed = 0; steps = 0 }) refl in
    (
      t.visits,
      t.result,
      t.folds (List Visit) record_visit [] ∙ rw (fold-record_visit [] t.visits),
      t.path,
      t.bounded,
      omega (arith, t.counted),
    )

-- One traversal for every pass: a walk with any visitor, faults of the visitor included, calls it at
-- the visits that `walk-PathOf` lists, in their order, and gives the same result.
pub walk-fold_visits :
    (pkt : List ℕ) (root : Node) (S : Type 0) (visit : S → Node → ℕ → Option S) (s : S)
    → walk pkt visit root s
      ≡ (walk pkt record_visit root [] >>= λ t. fold_visits visit s t.0 >>= λ s'. some (s', t.1))
unfolding walk
walk-fold_visits pkt root S visit s =
    let t = walk_loop-Trace pkt 32 (some root) 0 (record { consumed = 0; steps = 0 }) refl in
    t.folds S visit s
    ∙ rw (t.folds (List Visit) record_visit []) (rw (fold-record_visit [] t.visits))
