-- ===== src/Dpar/Palette/Measure.antt =====
-- dpar.hpp: a measure of the parser's state against the rows that the matcher counts.
use nanotins.Shared.{ℕ, ◌+◌, ◌≡◌, sym, ap, ◌∙◌, arith, List, [], ◌∷◌}
use nanotins.Shared.{length, Option, none, some, Bool, true, false, ◌>>=◌, >>=-eq-some}
use nanotins.Shared.{Option-cases, inl, inr, get_elem?, write_at}
use nanotins.Shared.Bits.{u64}
use nanotins.Dpar.{Rule}
use nanotins.Dag.{eth, walk}
use nanotins.Dpar.Match.{
  EngineStats, Seen, none_seen, note_visit, rule_region, evaluated, matched_stats, match_rules,
  seen_stats, finish, dpar_match,
}
use nanotins.Dpar.Palette.{}

matched_stats-rows :
    (st st' : EngineStats) (rule_id rows : ℕ)
    → matched_stats st rule_id rows ≡ some st'
    → (st'.rows_emitted ≡ u64 (st.rows_emitted + rows)) × (st'.rules_evaluated ≡ st.rules_evaluated)
matched_stats-rows st st' rule_id rows h =
    let (r, e, g) =
      >>=-eq-some (get_elem? st.per_rule rule_id)
        (λ r.
          write_at st.per_rule rule_id
            (record { matched = u64 (r.matched + 1); rows_emitted = u64 (r.rows_emitted + rows) })
          >>= λ per. some (record {
            packets_seen = st.packets_seen;
            packets_matched_any = st.packets_matched_any;
            rules_evaluated = st.rules_evaluated;
            rows_emitted = u64 (st.rows_emitted + rows);
            per_rule = per;
          }))
        h in
    let (per, w, done) =
      >>=-eq-some
        (write_at st.per_rule rule_id
          (record { matched = u64 (r.matched + 1); rows_emitted = u64 (r.rows_emitted + rows) }))
        (λ per. some (record {
          packets_seen = st.packets_seen;
          packets_matched_any = st.packets_matched_any;
          rules_evaluated = st.rules_evaluated;
          rows_emitted = u64 (st.rows_emitted + rows);
          per_rule = per;
        }))
        g in
    (cc done, cc done)

-- A measure of the parser's state that grows by the rows that the parser reports stays equal to the
-- rows counted, modulo 2^64.
module _ {S : Type 0} (on_match : S → (kind pid rule_id begin end : ℕ) → Option (S × ℕ))
    (measure : S → ℕ) (pkt : List ℕ) (pid : ℕ)
    (grows : (s s' : S) (kind rule_id b e n : ℕ)
      → on_match s kind pid rule_id b e ≡ some (s', n)
      → u64 (measure s') ≡ u64 (measure s + n)) where
  match_rules-measure :
      (seen : Seen) (rules : List Rule) (s s' : S) (st st' : EngineStats) (any any' : Bool)
      → match_rules on_match pkt pid seen rules (s, st, any) ≡ some (s', st', any')
      → u64 (measure s) ≡ u64 st.rows_emitted
      → u64 (measure s') ≡ u64 st'.rows_emitted
  unfolding match_rules
  match_rules-measure seen [] s s' st st' any any' h m =
      let same : s ≡ s' = cc h in
      let counted : st ≡ st' = cc h in
      ap (λ x. u64 (measure x)) (sym same)
      ∙ m
      ∙ ap (λ (x : EngineStats). u64 x.rows_emitted) counted
  match_rules-measure seen (rule ∷ rules) s s' st st' any any' h m =
      elim (Option-cases (rule_region pkt seen rule)) [
        | inl e ↦ cc (rw (e, match_rules) at h)
        | inr (none, e) ↦
            match_rules-measure seen rules s s' (evaluated st) st' any any'
              (rw (e, match_rules) at h) m
        | inr (some (b, l), e) ↦
            let (t, took, h1) =
              >>=-eq-some (on_match s rule.parser_kind pid rule.rule_id b l)
                (λ t. matched_stats (evaluated st) rule.rule_id t.1 >>= λ st1.
                  match_rules on_match pkt pid seen rules (t.0, st1, true))
                (rw (e, match_rules) at h) in
            let (st1, counted, h2) =
              >>=-eq-some (matched_stats (evaluated st) rule.rule_id t.1)
                (λ st1. match_rules on_match pkt pid seen rules (t.0, st1, true)) h1 in
            let rows = (matched_stats-rows (evaluated st) st1 rule.rule_id t.1 counted).0 in
            let grown = grows s t.0 rule.parser_kind rule.rule_id b l t.1 took in
            match_rules-measure seen rules t.0 s' st1 st' true any' h2 (omega (arith, rows, grown))
      ]

  -- One packet.
  pub dpar_match-measure :
      (rules : List Rule) (s s' : S) (st st' : EngineStats)
      → dpar_match on_match pkt pid rules (s, st) ≡ some (s', st')
      → u64 (measure s) ≡ u64 st.rows_emitted
      → u64 (measure s') ≡ u64 st'.rows_emitted
  unfolding dpar_match
  dpar_match-measure [] s s' st st' h m =
      let same : s ≡ s' = cc h in
      let counted : st ≡ st' = cc h in
      ap (λ x. u64 (measure x)) (sym same)
      ∙ m
      ∙ ap (λ (x : EngineStats). u64 x.rows_emitted) counted
  dpar_match-measure (rule ∷ rules) s s' st st' h m =
      let n = length (rule ∷ rules) in
      let (t, walked, h1) =
        >>=-eq-some (walk pkt note_visit eth none_seen)
          (λ t.
            match_rules on_match pkt pid t.0 (rule ∷ rules)
              (s, seen_stats on_match pkt pid n st, false)
            >>= λ r. some (finish on_match pkt pid r))
          h in
      let (r, matched, h2) =
        >>=-eq-some
          (match_rules on_match pkt pid t.0 (rule ∷ rules)
            (s, seen_stats on_match pkt pid n st, false))
          (λ r. some (finish on_match pkt pid r)) h1 in
      finished r.0 r.1 r.2 h2 (
        match_rules-measure t.0 (rule ∷ rules) s r.0 (seen_stats on_match pkt pid n st) r.1 false
          r.2 matched m)
    where
      finished :
          (s1 : S) (st1 : EngineStats) (any : Bool)
          → some (finish on_match pkt pid (s1, st1, any)) ≡ some (s', st')
          → u64 (measure s1) ≡ u64 st1.rows_emitted
          → u64 (measure s') ≡ u64 st'.rows_emitted
      finished s1 st1 false h m =
          let same : s1 ≡ s' = cc h in
          let counted : st1.rows_emitted ≡ st'.rows_emitted = cc h in
          ap (λ x. u64 (measure x)) (sym same) ∙ m ∙ ap u64 counted
      finished s1 st1 true h m =
          let same : s1 ≡ s' = cc h in
          let counted : st1.rows_emitted ≡ st'.rows_emitted = cc h in
          ap (λ x. u64 (measure x)) (sym same) ∙ m ∙ ap u64 counted
