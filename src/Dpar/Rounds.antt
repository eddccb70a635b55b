-- ===== src/Dpar/Rounds.antt =====
-- dpar.hpp: the matcher's loop over the rules. Every rule is evaluated, and the parser is called for
-- the rules that fire, in rule order.
use nanotins.Shared.{
  ℕ, ◌+◌, ◌%◌, ◌^◌, ◌<◌, ◌≤◌, ◌≡◌, refl, ap, ◌∙◌, arith, List, [], ◌∷◌, length, All,
}
use nanotins.Shared.{Option, none, some, Bool, true, false, ◌>>=◌, ◌||◌, if◌then◌else◌}
use nanotins.Shared.Bits.{u64}
use nanotins.WireSpec.Bounds.{IsRead}
use nanotins.Dag.Nodes.{node_id}
use nanotins.Dpar.{Rule}
use nanotins.Dpar.Match.{Seen, EngineStats, rule_region, preds_hold, evaluated, match_rules, finish}
use nanotins.Dag.Trace.{Visit}
use nanotins.Dpar.Fires.{Call, all_hold, fires, fires-held, fired, fired-first}
use nanotins.Dpar.Seen.{SeenOk}
use nanotins.Dpar.Safety.{
  CatalogField, anchor, InPacket, preds_hold-all_hold, resolve_region-InPacket,
}
use nanotins.Shared.{◌==◌}
use nanotins.Dpar.Stats.{matched_at, Balanced, matched_stats-Balanced}

-- A rule as the compiler makes it: its fields are the catalog's, its region is measured from the
-- region's node, and its id is below the number of rules.
pub record IsRule (count : ℕ) (rule : Rule) : Type 0 where
  pub fields : All (λ p. CatalogField p.field) rule.preds
  pub anchored : (rule.region).anchor_node_id ≡ node_id (anchor (rule.region).kind)
  pub counted : rule.rule_id < count

-- The region of a call lies inside the packet.
abbrev pub CallInPacket : List ℕ → Call → Type 0
CallInPacket pkt (rule, b, e) = (b ≤ e) × (e ≤ length pkt)

abbrev pub is_some_call : List Call → Bool
is_some_call [] = false
is_some_call (c ∷ cs) = true

-- The calls of the rule with an id.
abbrev pub calls_of : ℕ → List Call → ℕ
calls_of id [] = 0
calls_of id ((rule, b, e) ∷ cs) = (if id == rule.rule_id then 1 else 0) + calls_of id cs

or_false : (b : Bool) → b ≡ (b || false)
or_false true = refl
or_false false = refl

or_true : (b c : Bool) → (true || c) ≡ (b || true)
or_true true c = refl
or_true false c = refl

module _ {S : Type 0} (on_match : S → (kind pid rule_id begin end : ℕ) → Option (S × ℕ))
    (pkt : List ℕ) (pid : ℕ) where
  -- The parser called for each of the calls.
  abbrev pub call_all : S → List Call → Option S
  call_all s [] = some s
  call_all s ((rule, b, e) ∷ cs) =
      on_match s rule.parser_kind pid rule.rule_id b e >>= λ t. call_all t.0 cs

  -- The parser takes every region inside the packet.
  abbrev pub Takes : Type 0
  Takes =
      (s : S) (kind rule_id b e : ℕ)
      → b ≤ e
      → e ≤ length pkt
      → IsRead (on_match s kind pid rule_id b e)

  module _ (takes : Takes) (vs : List Visit) (seen : Seen) (ok : SeenOk pkt vs seen) where
    rule_region-InPacket :
        (count : ℕ) (rule : Rule)
        → IsRule count rule
        → (r : Option (ℕ × ℕ)) × (rule_region pkt seen rule ≡ some r)
          × (fires pkt vs rule ≡ some r)
          × InPacket pkt r
    rule_region-InPacket count rule h =
        let (b, run, holds) = preds_hold-all_hold pkt vs seen ok rule.preds h.fields in
        go b run holds
      where
        go :
            (b : Bool)
            → preds_hold pkt seen rule.preds ≡ some b
            → all_hold pkt vs rule.preds ≡ some b
            → (r : Option (ℕ × ℕ)) × (rule_region pkt seen rule ≡ some r)
              × (fires pkt vs rule ≡ some r)
              × InPacket pkt r
        go false run holds = (none, rw run refl, fires-held pkt vs rule false holds, tt)
        go true run holds =
            let (r, res, spec, inside) =
              resolve_region-InPacket pkt vs seen ok rule.region h.anchored in
            (r, rw run res, fires-held pkt vs rule true holds ∙ spec, inside)

    -- What the loop over the rules does.
    pub record Matched (rules : List Rule) (s : S) (st : EngineStats) (any : Bool) : Type 0 where
      pub calls : List Call
      pub state : S
      pub stats : EngineStats
      pub fire : fired pkt vs rules ≡ some calls
      pub inside : All (CallInPacket pkt) calls
      pub called : call_all s calls ≡ some state
      pub runs :
          match_rules on_match pkt pid seen rules (s, st, any)
          ≡ some (state, stats, any || is_some_call calls)
      pub balanced : Balanced st → Balanced stats
      pub matched :
          (j : ℕ)
          → u64 (matched_at stats.per_rule j) ≡ u64 (matched_at st.per_rule j + calls_of j calls)
      pub packets : stats.packets_seen ≡ st.packets_seen
      pub matches : stats.packets_matched_any ≡ st.packets_matched_any
      pub rounds :
          st.rules_evaluated < 2 ^ 64
          → stats.rules_evaluated ≡ (st.rules_evaluated + length rules) % 2 ^ 64

    -- One round, with the loop over the other rules.
    match_rules-step :
        (count : ℕ) (rule : Rule) (rules : List Rule) (s : S) (st : EngineStats) (any : Bool)
        → ((s : S) (st : EngineStats) (any : Bool)
            → count ≤ length st.per_rule
            → Matched rules s st any)
        → rule.rule_id < count
        → count ≤ length st.per_rule
        → (r : Option (ℕ × ℕ)) → rule_region pkt seen rule ≡ some r
        → fires pkt vs rule ≡ some r
        → InPacket pkt r
        → Matched (rule ∷ rules) s st any
    unfolding match_rules
    match_rules-step count rule rules s st any loop id size none e f inside =
        let m = loop s (evaluated st) any size in
        record {
          calls = m.calls;
          state = m.state;
          stats = m.stats;
          fire = fired-first pkt vs rule rules none m.calls f m.fire;
          inside = m.inside;
          called = m.called;
          runs = rw (e, match_rules) m.runs;
          balanced = m.balanced;
          matched = m.matched;
          packets = m.packets;
          matches = m.matches;
          rounds = λ low. let more = m.rounds (omega arith) in omega (arith, more);
        }
    match_rules-step count rule rules s st any loop id size (some (b, l)) e f (order, short) =
        let ((s', rows), took) = takes s rule.parser_kind rule.rule_id b l order short in
        let (st', counted, balanced', each, kept, seen', any', evals) =
          matched_stats-Balanced (evaluated st) rule.rule_id rows (omega arith) in
        let m = loop s' st' true (omega (arith, kept)) in
        record {
          calls = (rule, b, l) ∷ m.calls;
          state = m.state;
          stats = m.stats;
          fire = fired-first pkt vs rule rules (some (b, l)) m.calls f m.fire;
          inside = ((order, short), m.inside);
          called = rw took m.called;
          runs =
              rw (e, match_rules)
                (rw took (
                  rw counted (
                    m.runs
                    ∙ ap (λ b. some (m.state, m.stats, b)) (or_true any (is_some_call m.calls)))));
          balanced = λ before. m.balanced (balanced' before);
          matched = λ j. omega (arith, each j, m.matched j);
          packets = m.packets ∙ seen';
          matches = m.matches ∙ any';
          rounds = λ low. let more = m.rounds (omega (arith, evals)) in omega (arith, more, evals);
        }

    pub match_rules-Matched :
        (count : ℕ) (rules : List Rule) (s : S) (st : EngineStats) (any : Bool)
        → All (IsRule count) rules
        → count ≤ length st.per_rule
        → Matched rules s st any
    unfolding match_rules
    match_rules-Matched count [] s st any valid size = record {
      calls = [];
      state = s;
      stats = st;
      fire = refl;
      inside = tt;
      called = refl;
      runs = ap (λ b. some (s, st, b)) (or_false any);
      balanced = λ before. before;
      matched = λ j. omega arith;
      packets = refl;
      matches = refl;
      rounds = λ low. omega arith;
    }
    match_rules-Matched count (rule ∷ rules) s st any (v, valid) size =
        let (r, e, f, inside) = rule_region-InPacket count rule v in
        match_rules-step count rule rules s st any
          (λ s' st' any' size'. match_rules-Matched count rules s' st' any' valid size') v.counted
          size r e f inside

-- The last step counts a packet with a match.
pub finish-counters :
    {S : Type 0} (on_match : S → (kind pid rule_id begin end : ℕ) → Option (S × ℕ)) (pkt : List ℕ)
    (pid : ℕ) (s : S) (st : EngineStats) (any : Bool)
    → (st' : EngineStats) × (finish on_match pkt pid (s, st, any) ≡ (s, st'))
      × (Balanced st → Balanced st')
      × (st'.per_rule ≡ st.per_rule)
      × (st'.packets_seen ≡ st.packets_seen)
      × (st'.rules_evaluated ≡ st.rules_evaluated)
      × (st'.packets_matched_any
          ≡ (if any then (st.packets_matched_any + 1) % 2 ^ 64 else st.packets_matched_any))
finish-counters on_match pkt pid s st false = (st, refl, λ h. h, refl, refl, refl, refl)
finish-counters on_match pkt pid s st true = (
  record {
    packets_seen = st.packets_seen;
    packets_matched_any = u64 (st.packets_matched_any + 1);
    rules_evaluated = st.rules_evaluated;
    rows_emitted = st.rows_emitted;
    per_rule = st.per_rule;
  },
  refl,
  λ h. h,
  refl,
  refl,
  refl,
  refl,
)
