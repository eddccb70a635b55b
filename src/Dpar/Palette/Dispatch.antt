-- ===== src/Dpar/Palette/Dispatch.antt =====
-- dpar_palette.hpp: the dispatch appends rows to the tables, and returns their number.
use nanotins.Shared.{ℕ, suc, ◌+◌, ◌≤◌, ◌≡◌, refl, ap, arith, List, [], ◌∷◌}
use nanotins.Shared.{length, some, Bool-cases, inl, inr, ◌==◌, >>=-eq-some}
use nanotins.Shared.Bits.{u64}
use nanotins.Dpar.Palette.{Kind, PaletteTables, emit_at}
use nanotins.Dpar.Palette.Kinds.{IsKind}

-- The rows of a palette's tables.
abbrev pub row_count : (ks : List Kind) → PaletteTables ks → ℕ
row_count [] t = 0
row_count (k ∷ ks) (t, ts) = length t + row_count ks ts

abbrev pub AreKinds : List Kind → Type 0
AreKinds [] = Unit
AreKinds (k ∷ ks) = IsKind k × AreKinds ks

-- The dispatch of any kind number returns over a region inside the packet.
pub emit_at-total :
    (ks : List Kind) (i kind : ℕ) (mem : List ℕ) (pid rule_id p end : ℕ) (t : PaletteTables ks)
    → AreKinds ks
    → p ≤ end
    → end ≤ length mem
    → (t' : PaletteTables ks) × (n : ℕ) × (emit_at ks i kind mem pid rule_id p end t ≡ some (t', n))
unfolding emit_at
emit_at-total [] i kind mem pid rule_id p end t h order inside = (t, 0, refl)
emit_at-total (k ∷ ks) i kind mem pid rule_id p end (t, ts) (h, hs) order inside =
    elim (Bool-cases (kind == i)) [
      | inl here ↦
          let (t', n, run) = h.total mem pid rule_id p end t order inside in
          ((t', ts), n, rw here (rw run refl))
      | inr there ↦
          let (ts', n, run) =
            emit_at-total ks (suc i) kind mem pid rule_id p end ts hs order inside in
          ((t, ts'), n, rw there (rw run refl))
    ]

-- Where the dispatch returns, the tables have gained as many rows as it says, modulo 2^64.
pub emit_at-counted :
    (ks : List Kind) (i kind : ℕ) (mem : List ℕ) (pid rule_id p end : ℕ) (t t' : PaletteTables ks)
    (n : ℕ)
    → AreKinds ks
    → emit_at ks i kind mem pid rule_id p end t ≡ some (t', n)
    → u64 (row_count ks t') ≡ u64 (row_count ks t + n)
unfolding emit_at
emit_at-counted [] i kind mem pid rule_id p end t t' n h e =
    let none_emitted : 0 ≡ n = cc e in omega (arith, none_emitted)
emit_at-counted (k ∷ ks) i kind mem pid rule_id p end (t, ts) (t', ts') n (h, hs) e =
    elim (Bool-cases (kind == i)) [
      | inl here ↦
          let (r, run, done) =
            >>=-eq-some (k.emit mem pid rule_id p end t) (λ r. some ((r.0, ts), r.1))
              (rw here at e) in
          let kept : ts ≡ ts' = cc done in
          let grown : r.0 ≡ t' = cc done in
          let count : r.1 ≡ n = cc done in
          let c = h.counted mem pid rule_id p end t r.0 r.1 run in
          omega (arith, c, ap (row_count ks) kept, ap length grown, count)
      | inr there ↦
          let (r, run, done) =
            >>=-eq-some (emit_at ks (suc i) kind mem pid rule_id p end ts)
              (λ r. some ((t, r.0), r.1)) (rw there at e) in
          let kept : t ≡ t' = cc done in
          let grown : r.0 ≡ ts' = cc done in
          let count : r.1 ≡ n = cc done in
          let c = emit_at-counted ks (suc i) kind mem pid rule_id p end ts r.0 r.1 hs run in
          omega (arith, c, ap length kept, ap (row_count ks) grown, count)
    ]
