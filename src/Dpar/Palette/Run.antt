-- ===== src/Dpar/Palette/Run.antt =====
-- dpar_palette.hpp: the engine over a run. The rows counted are the rows in the palette's tables.
use nanotins.Shared.{ℕ, zero, suc, ◌+◌, ◌%◌, ◌^◌, ◌<◌, ◌≡◌, refl, ap, arith, List, [], ◌∷◌}
use nanotins.Shared.{length, All, All-map, replicate, some}
use nanotins.Shared.{inl, inr}
use nanotins.Shared.Bits.{u64}
use nanotins.Dpar.{Rule}
use nanotins.Dpar.Catalog.{build_l2l3_catalog}
use nanotins.Dpar.Match.{zero_stat, dpar_match}
use nanotins.Dpar.Stats.{Balanced, total_rows}
use nanotins.Dpar.Rounds.{IsRule, Takes}
use nanotins.Dpar.Engine.{dpar_match-Run}
use nanotins.Dpar.Compile.{compile_rules}
use nanotins.Dpar.Compile.Rules.{Validated, compile_rules-Verdict}
use nanotins.Dpar.Palette.{
  Kind, empty_tables, names, palette_emit, DparEngine, new_engine, load_rules, run, run_all,
}
use nanotins.Dpar.Palette.Dispatch.{row_count, AreKinds, emit_at-total, emit_at-counted}
use nanotins.Dpar.Palette.Measure.{dpar_match-measure}

-- An engine between packets: its rules are as the compiler makes them, the rows counted by rule are
-- the rows counted in all, and those are the rows in the palette's tables, modulo 2^64.
pub record IsRunning (ks : List Kind) (e : DparEngine ks) : Type 0 where
  pub valid : All (IsRule (length e.rules)) e.rules
  pub balanced : Balanced e.stats
  pub counted : u64 (row_count ks e.palette) ≡ u64 (e.stats).rows_emitted
  pub rounds : (e.stats).rules_evaluated < 2 ^ 64

total_rows-zero : (n : ℕ) → total_rows (replicate n zero_stat) ≡ 0
total_rows-zero zero = refl
total_rows-zero (suc n) = omega (arith, total_rows-zero n)

row_count-empty : (ks : List Kind) → row_count ks (empty_tables ks) ≡ 0
row_count-empty [] = refl
row_count-empty (k ∷ ks) = omega (arith, row_count-empty ks)

module _ (ks : List Kind) (kinds : AreKinds ks) where
  palette_emit-Takes : (pkt : List ℕ) (pid : ℕ) → Takes (palette_emit ks pkt) pkt pid
  palette_emit-Takes pkt pid s kind rule_id b e order inside =
      let (t, n, run) = emit_at-total ks 0 kind pkt pid rule_id b e s kinds order inside in
      ((t, n), run)

  -- One packet: the engine goes on, with the same rules.
  pub run-IsRunning :
      (e : DparEngine ks) (pkt : List ℕ) (pid : ℕ)
      → IsRunning ks e
      → (e' : DparEngine ks) × (run e pkt pid ≡ some e') × IsRunning ks e'
  unfolding run
  run-IsRunning e pkt pid h = go e.rules refl h.valid
    where
      go :
          (rules : List Rule)
          → e.rules ≡ rules
          → All (IsRule (length e.rules)) e.rules
          → (e' : DparEngine ks) × (run e pkt pid ≡ some e') × IsRunning ks e'
      go [] same valid = (
        record { palette = e.palette; stats = e.stats; catalog = e.catalog; rules = e.rules },
        rw same (unfold dpar_match in refl),
        record { valid = valid; balanced = h.balanced; counted = h.counted; rounds = h.rounds },
      )
      go (rule ∷ rules) same valid =
          let r =
            dpar_match-Run (palette_emit ks pkt) pkt pid rule rules e.palette e.stats
              (rw same at valid) (palette_emit-Takes pkt pid) in
          (
            record { palette = r.state; stats = r.stats; catalog = e.catalog; rules = e.rules },
            rw same (rw r.done refl),
            record {
              valid = valid;
              balanced = r.balanced h.balanced;
              counted =
                  dpar_match-measure (palette_emit ks pkt) (row_count ks) pkt pid
                    (λ s s' kind rule_id b l n took.
                      emit_at-counted ks 0 kind pkt pid rule_id b l s s' n kinds took)
                    (rule ∷ rules) e.palette r.state e.stats r.stats r.done h.counted;
              rounds = let n = r.rounds h.rounds in omega (arith, n);
            },
          )

  run_all-Runs :
      (packets : List (List ℕ × ℕ)) (e : DparEngine ks)
      → IsRunning ks e
      → (e' : DparEngine ks) × (run_all e packets ≡ some e') × IsRunning ks e'
  unfolding run_all
  run_all-Runs [] e h = (e, refl, h)
  run_all-Runs ((pkt, pid) ∷ ps) e h =
      let (e1, step, h1) = run-IsRunning e pkt pid h in
      let (e', rest, h') = run_all-Runs ps e1 h1 in (e', rw step rest, h')

  load_rules-IsRunning :
      (text : List ℕ) → length text + 1 < 2 ^ 32 → IsRunning ks (load_rules (new_engine ks) text).1
  unfolding load_rules
  load_rules-IsRunning text small =
      let r = compile_rules text build_l2l3_catalog (names ks) in
      elim (compile_rules-Verdict text (names ks) small) [
        | inl (ok, clean, valid) ↦ rw ok (record {
          valid = All-map (Validated (length r.rules)) _ (λ r v. v.runnable) r.rules valid;
          balanced = ap u64 (total_rows-zero (length r.rules));
          counted = ap u64 (row_count-empty ks);
          rounds = omega arith;
        })
        | inr (bad, errors, empty) ↦ rw bad (record {
          valid = tt;
          balanced = refl;
          counted = ap u64 (row_count-empty ks);
          rounds = omega arith;
        })
      ]

-- An engine from its rules to its tables: for any text shorter than 2^32 - 1 bytes, accepted or not,
-- and any packets, the engine that has loaded the text runs over the packets one after the other
-- without a read outside any of them, for Kinds that return over every region inside a packet and
-- report the rows that they append. At the end the rows in the palette's tables, the rows that the
-- statistics count in all, and those that they count by rule add up to the same, modulo 2^64.
pub run_all-counted :
    (ks : List Kind) (text : List ℕ) (packets : List (List ℕ × ℕ))
    → AreKinds ks
    → length text + 1 < 2 ^ 32
    → (e : DparEngine ks) × (run_all (load_rules (new_engine ks) text).1 packets ≡ some e)
      × (row_count ks e.palette % 2 ^ 64 ≡ (e.stats).rows_emitted)
      × (total_rows (e.stats).per_rule % 2 ^ 64 ≡ (e.stats).rows_emitted)
run_all-counted ks text packets kinds small =
    let (e, run, h) = run_all-Runs ks kinds packets _ (load_rules-IsRunning ks kinds text small) in
    (e, run, omega (arith, h.counted, h.balanced), h.balanced)
