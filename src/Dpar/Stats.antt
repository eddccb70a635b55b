-- ===== src/Dpar/Stats.antt =====
-- dpar.hpp: the counters of the matcher. The rows counted by rule are the rows counted in all.
use nanotins.Shared.{
  ℕ, zero, suc, ◌+◌, ◌-◌, ◌<◌, ◌≤◌, ◌≡◌, refl, sym, ap, ◌∙◌, arith, List, [], ◌∷◌, ◌++◌,
}
use nanotins.Shared.{
  length, length-append, replicate, some, false, ◌==◌, if◌then◌else◌, ltb, write_at, write_at-zero,
  write_at-suc, get_elem?,
}
use nanotins.Shared.{Bool-cases, inl, inr}
use nanotins.Shared.Bits.{u64}
use mathlib.Core.Option.{some-injective}
use nanotins.Bulk.{resize_table}
use nanotins.Bulk.Layout.{resize_table-grow, length-replicate}
use nanotins.Dpar.Match.{RuleStat, EngineStats, zero_stat, sized_stats, matched_stats}

abbrev pub total_rows : List RuleStat → ℕ
total_rows [] = 0
total_rows (r ∷ rs) = r.rows_emitted + total_rows rs

-- The count of matches of a rule, 0 for one that has no counters.
abbrev pub matched_at : List RuleStat → ℕ → ℕ
matched_at [] i = 0
matched_at (r ∷ rs) zero = r.matched
matched_at (r ∷ rs) (suc i) = matched_at rs i

-- The rows emitted by rule add up to the rows emitted, modulo 2^64.
abbrev pub Balanced : EngineStats → Type 0
Balanced st = u64 (total_rows st.per_rule) ≡ st.rows_emitted

-- An entry replaced.
write_at-total_rows :
    (xs : List RuleStat) (i : ℕ) (r : RuleStat)
    → i < length xs
    → (old : RuleStat) × (ys : List RuleStat) × (get_elem? xs i ≡ some old)
      × (write_at xs i r ≡ some ys)
      × (length ys ≡ length xs)
      × (total_rows ys + old.rows_emitted ≡ total_rows xs + r.rows_emitted)
      × (old.matched ≡ matched_at xs i)
      × ((j : ℕ) → matched_at ys j ≡ (if j == i then r.matched else matched_at xs j))
write_at-total_rows [] i r h = absurd (omega arith)
write_at-total_rows (x ∷ xs) zero r h =
    (x, r ∷ xs, refl, write_at-zero x xs r, refl, omega arith, refl, first)
  where
    first : (j : ℕ) → matched_at (r ∷ xs) j ≡ (if j == 0 then r.matched else matched_at (x ∷ xs) j)
    first zero = refl
    first (suc j) = let later : (suc j == 0) ≡ false = ground arith in rw later refl
write_at-total_rows (x ∷ xs) (suc i) r h =
    let (old, ys, got, wrote, size, sum, was, each) = write_at-total_rows xs i r (omega arith) in
    (
      old,
      x ∷ ys,
      got,
      write_at-suc x xs ys i r wrote,
      ap suc size,
      omega (arith, sum),
      was,
      others ys each,
    )
  where
    others :
        (ys : List RuleStat)
        → ((j : ℕ) → matched_at ys j ≡ (if j == i then r.matched else matched_at xs j))
        → (j : ℕ)
        → matched_at (x ∷ ys) j ≡ (if j == suc i then r.matched else matched_at (x ∷ xs) j)
    others ys each zero = let first : (0 == suc i) ≡ false = ground arith in rw first refl
    others ys each (suc j) =
        let same : (suc j == suc i) ≡ (j == i) = ground arith in rw same (each j)

get_elem?-lt :
    (xs : List RuleStat) (i : ℕ) → i < length xs → (x : RuleStat) × (get_elem? xs i ≡ some x)
get_elem?-lt [] i h = absurd (omega arith)
get_elem?-lt (x ∷ xs) zero h = (x, refl)
get_elem?-lt (x ∷ xs) (suc i) h = get_elem?-lt xs i (omega arith)

-- A match keeps the balance, whatever the number of rows is.
pub matched_stats-Balanced :
    (st : EngineStats) (rule_id rows : ℕ)
    → rule_id < length st.per_rule
    → (st' : EngineStats) × (matched_stats st rule_id rows ≡ some st')
      × (Balanced st → Balanced st')
      × ((j : ℕ)
          → u64 (matched_at st'.per_rule j)
            ≡ u64 (matched_at st.per_rule j + (if j == rule_id then 1 else 0)))
      × (length st'.per_rule ≡ length st.per_rule)
      × (st'.packets_seen ≡ st.packets_seen)
      × (st'.packets_matched_any ≡ st.packets_matched_any)
      × (st'.rules_evaluated ≡ st.rules_evaluated)
matched_stats-Balanced st rule_id rows h =
    let (r, got) = get_elem?-lt st.per_rule rule_id h in
    let new : RuleStat = record {
      matched = u64 (r.matched + 1);
      rows_emitted = u64 (r.rows_emitted + rows);
    } in
    let (old, per, got', wrote, size, sum, was, each) =
      write_at-total_rows st.per_rule rule_id new h in
    let same : r ≡ old = some-injective r old (sym got ∙ got') in
    let count = ap (λ (s : RuleStat). s.rows_emitted) same in
    (
      record {
        packets_seen = st.packets_seen;
        packets_matched_any = st.packets_matched_any;
        rules_evaluated = st.rules_evaluated;
        rows_emitted = u64 (st.rows_emitted + rows);
        per_rule = per;
      },
      rw got (rw wrote refl),
      λ balanced. omega (arith, sum, count, balanced),
      λ j. elim (Bool-cases (j == rule_id)) [
        | inl hit ↦
            let here : j ≡ rule_id = ground arith in
            let before : matched_at st.per_rule j ≡ r.matched =
              ap (matched_at st.per_rule) here
              ∙ sym was
              ∙ ap (λ (s : RuleStat). s.matched) (sym same) in
            let after : matched_at per j ≡ u64 (r.matched + 1) = each j ∙ rw hit refl in
            rw hit (omega (arith, before, after))
        | inr miss ↦ rw miss (ap u64 (each j ∙ rw miss (omega arith)))
      ],
      size,
      refl,
      refl,
      refl,
    )

total_rows-append : (xs ys : List RuleStat) → total_rows (xs ++ ys) ≡ total_rows xs + total_rows ys
total_rows-append [] ys = omega arith
total_rows-append (x ∷ xs) ys = omega (arith, total_rows-append xs ys)

total_rows-replicate : (n : ℕ) → total_rows (replicate n zero_stat) ≡ 0
total_rows-replicate zero = refl
total_rows-replicate (suc n) = omega (arith, total_rows-replicate n)

matched_at-zeros :
    (n : ℕ) (xs : List RuleStat) (j : ℕ)
    → matched_at (xs ++ replicate n zero_stat) j ≡ matched_at xs j
matched_at-zeros zero [] j = refl
matched_at-zeros (suc n) [] zero = refl
matched_at-zeros (suc n) [] (suc j) = matched_at-zeros n [] j
matched_at-zeros n (x ∷ xs) zero = refl
matched_at-zeros n (x ∷ xs) (suc j) = matched_at-zeros n xs j

-- Counters for `n` rules, when there are fewer: the new ones are zero.
pub sized_stats-grown :
    (n : ℕ) (stats : List RuleStat)
    → (n ≤ length (sized_stats n stats))
      × (total_rows (sized_stats n stats) ≡ total_rows stats)
      × ((j : ℕ) → matched_at (sized_stats n stats) j ≡ matched_at stats j)
sized_stats-grown n stats = elim (Bool-cases (ltb (length stats) n)) [
  | inr e ↦ rw e (ground arith, refl, λ j. refl)
  | inl e ↦
      let more = n - length stats in
      let size : n ≡ length stats + more = ground arith in
      let grown : resize_table zero_stat n stats ≡ stats ++ replicate more zero_stat =
        ap (λ (k : ℕ). resize_table zero_stat k stats) size
        ∙ resize_table-grow zero_stat more stats in
      rw e (
        rw grown (
          omega (
            arith,
            size,
            length-append stats (replicate more zero_stat),
            length-replicate zero_stat more,
          ),
          omega (
            arith,
            total_rows-append stats (replicate more zero_stat),
            total_rows-replicate more,
          ),
          matched_at-zeros more stats,
        ))
]
