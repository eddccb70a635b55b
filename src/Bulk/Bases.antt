-- ===== src/Bulk/Bases.antt =====
-- dag_bulk.hpp, protocol_decode_bulk.hpp: what the passes over one packet have to agree on. The
-- prefix sum then gives each packet the size of the blocks before its own, and the decode packet by
-- packet lays the blocks end to end.
use nanotins.Shared.{ℕ, zero, suc, ◌+◌, ◌<◌, ◌≡◌, refl, sym, ap, ◌∙◌, arith, List, [], ◌∷◌, ◌++◌}
use nanotins.Shared.{length, length-append, some, All}
use nanotins.Shared.Bits.{u32}
use nanotins.Bulk.{Key, Tables, Counts, PacketPasses, add_counts, decode_all, prefix_sum}
use nanotins.Shared.{get_elem?}
use nanotins.Bulk.Layout.{rows_of, span, span-shift, span-cons}
use nanotins.Bulk.Scatter.{Ready}
use mathlib.Core.List.{append_assoc, append-nil}

-- The passes agree on the rows that a valid packet emits: the decode appends them, the count counts
-- them, and the scatter puts them where there is room for them.
pub record Lawful {P K R : Type 0} ⦃key : Key K⦄ (passes : PacketPasses P K R) : Type 1 where
  pub Valid : P → Type 0
  pub emits : P → List (K × R)
  pub decode_rows :
      (p : P) (tabs : Tables K R)
      → Valid p
      → (t : Tables K R) × (passes.decode p tabs ≡ some t)
        × ((n : K) → t n ≡ tabs n ++ rows_of n (emits p))
  pub count_rows :
      (p : P)
      → Valid p
      → (c : Counts K) × (passes.count p ≡ some c)
        × ((n : K) → c n ≡ u32 (length (rows_of n (emits p))))
  pub scatter_rows :
      (p : P) (pre fill post : Tables K R) (cur : Counts K) (tabs : Tables K R)
      → Valid p
      → Ready (emits p) pre fill post cur tabs
      → (t : Tables K R) × (passes.scatter p cur tabs ≡ some t)
        × ((n : K) → t n ≡ pre n ++ (rows_of n (emits p) ++ post n))

module _ {P K R : Type 0} ⦃key : Key K⦄ {passes : PacketPasses P K R} (law : Lawful passes) where
  -- The rows of packet `j`.
  abbrev pub rows_at : List P → ℕ → List (K × R)
  rows_at [] j = []
  rows_at (p ∷ ps) zero = law.emits p
  rows_at (p ∷ ps) (suc j) = rows_at ps j

  -- The block of packet `j` in the table of node `n`, and the first `k` blocks end to end.
  abbrev pub block : List P → K → ℕ → List R
  block pkts n j = rows_of n (rows_at pkts j)

  abbrev pub blocks : List P → ℕ → K → List R
  blocks pkts k n = span (block pkts n) 0 k

  blocks-suc :
      (p : P) (ps : List P) (k : ℕ) (n : K)
      → blocks (p ∷ ps) (suc k) n ≡ rows_of n (law.emits p) ++ blocks ps k n
  blocks-suc p ps k n =
      span-cons (block (p ∷ ps) n) 0 k
      ∙ ap (λ r. rows_of n (law.emits p) ++ r) (span-shift (block (p ∷ ps) n) 0 k)

  length-blocks-suc :
      (p : P) (ps : List P) (k : ℕ) (n : K)
      → length (blocks (p ∷ ps) (suc k) n)
        ≡ length (rows_of n (law.emits p)) + length (blocks ps k n)
  length-blocks-suc p ps k n =
      ap length (blocks-suc p ps k n) ∙ length-append (rows_of n (law.emits p)) (blocks ps k n)

  pub decode_all-blocks :
      (pkts : List P) (tabs : Tables K R)
      → All law.Valid pkts
      → (t : Tables K R) × (decode_all passes pkts tabs ≡ some t)
        × ((n : K) → t n ≡ tabs n ++ blocks pkts (length pkts) n)
  unfolding decode_all span
  decode_all-blocks [] tabs ok = (tabs, refl, λ n. sym (append-nil (tabs n)))
  decode_all-blocks (p ∷ ps) tabs (o, ok) =
      let (t1, run1, all1) = law.decode_rows p tabs o in
      let (t, run, all) = decode_all-blocks ps t1 ok in
      (
        t,
        rw run1 run,
        λ n.
            all n
            ∙ ap (λ r. r ++ blocks ps (length ps) n) (all1 n)
            ∙ append_assoc (tabs n) (rows_of n (law.emits p)) (blocks ps (length ps) n)
            ∙ ap (λ r. tabs n ++ r) (sym (blocks-suc p ps (length ps) n)),
      )

  -- The base of packet `k`, as `prefix_sum` gives it.
  abbrev pub IsBase : List P → (K → ℕ) → ℕ → Counts K → Type 0
  IsBase pkts start k c = (n : K) → c n ≡ u32 (start n + length (blocks pkts k n))

  abbrev pub Bases : List P → (K → ℕ) → List (Counts K) → Type 0
  Bases pkts start bs =
      (k : ℕ) → k < length pkts → (c : Counts K) × (get_elem? bs k ≡ some c) × IsBase pkts start k c

  pub prefix_sum-Bases :
      (pkts : List P) (run : Counts K) (start : K → ℕ)
      → ((n : K) → run n ≡ u32 (start n))
      → All law.Valid pkts
      → (bs : List (Counts K)) × (tot : Counts K) × (prefix_sum passes pkts run ≡ some (bs, tot))
        × Bases pkts start bs
        × IsBase pkts start (length pkts) tot
  unfolding prefix_sum span
  prefix_sum-Bases [] run start h ok =
      ([], run, refl, λ k lt. absurd (omega arith), λ n. omega (arith, h n))
  prefix_sum-Bases (p ∷ ps) run start h (o, ok) =
      let (c, counted, each) = law.count_rows p o in
      let next : K → ℕ = λ n. start n + length (rows_of n (law.emits p)) in
      let (bs, tot, summed, bases, total) =
        prefix_sum-Bases ps (add_counts run c) next (λ n. omega (arith, h n, each n)) ok in
      (
        run ∷ bs,
        tot,
        rw counted (rw summed),
        bases_cons bs bases,
        λ n. omega (arith, total n, length-blocks-suc p ps (length ps) n),
      )
    where
      bases_cons :
          (bs : List (Counts K))
          → Bases ps (λ n. start n + length (rows_of n (law.emits p))) bs
          → Bases (p ∷ ps) start (run ∷ bs)
      bases_cons bs bases zero lt = (run, refl, λ n. omega (arith, h n))
      bases_cons bs bases (suc k) lt =
          let (c, got, base) = bases k (omega arith) in
          (c, got, λ n. omega (arith, base n, length-blocks-suc p ps k n))
