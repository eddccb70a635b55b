-- ===== src/Dpar/Engine.antt =====
-- dpar.hpp: a run of the matcher over a packet, against its specification.
use nanotins.Shared.{ℕ, ◌+◌, ◌%◌, ◌^◌, ◌<◌, ◌≡◌, refl, ap, ◌∙◌, arith, List, [], ◌∷◌, length, All}
use nanotins.Shared.{Option, some, false, if◌then◌else◌}
use nanotins.Shared.Bits.{u64}
use nanotins.Dpar.{Rule}
use nanotins.Dpar.Match.{EngineStats, seen_stats, dpar_match}
use nanotins.Dag.{eth, walk, WalkResult}
use nanotins.Dag.Trace.{Visit, PathOf, record_visit}
use nanotins.Dpar.Fires.{Call, fired}
use nanotins.Dpar.Seen.{walk-SeenOk}
use nanotins.Dpar.Safety.{}
use nanotins.Dpar.Stats.{matched_at, Balanced, sized_stats-grown}
use nanotins.Dpar.Rounds.{
  IsRule, CallInPacket, is_some_call, calls_of, call_all, Takes, match_rules-Matched,
  finish-counters,
}

-- What the matcher does on a packet, for rules as the compiler makes them.
pub record Run {S : Type 0} (on_match : S → (kind pid rule_id begin end : ℕ) → Option (S × ℕ))
    (pkt : List ℕ) (pid : ℕ) (rules : List Rule) (s : S) (st : EngineStats) : Type 0 where
  pub visits : List Visit
  pub result : WalkResult
  pub calls : List Call
  pub state : S
  pub stats : EngineStats
  pub listed : walk pkt record_visit eth [] ≡ some (visits, result)
  pub path : PathOf pkt (some eth) 0 visits result.consumed
  pub fire : fired pkt visits rules ≡ some calls
  pub inside : All (CallInPacket pkt) calls
  pub called : call_all on_match pkt pid s calls ≡ some state
  pub done : dpar_match on_match pkt pid rules (s, st) ≡ some (state, stats)
  pub balanced : Balanced st → Balanced stats
  pub matched :
      (j : ℕ)
      → u64 (matched_at stats.per_rule j) ≡ u64 (matched_at st.per_rule j + calls_of j calls)
  pub packets : stats.packets_seen ≡ (st.packets_seen + 1) % 2 ^ 64
  pub rounds :
      st.rules_evaluated < 2 ^ 64
      → stats.rules_evaluated ≡ (st.rules_evaluated + length rules) % 2 ^ 64
  pub matches : stats.packets_matched_any ≡ (
      if is_some_call calls then (st.packets_matched_any + 1) % 2 ^ 64 else st.packets_matched_any)

pub dpar_match-Run :
    {S : Type 0} (on_match : S → (kind pid rule_id begin end : ℕ) → Option (S × ℕ)) (pkt : List ℕ)
    (pid : ℕ) (rule : Rule) (rules : List Rule) (s : S) (st : EngineStats)
    → All (IsRule (length (rule ∷ rules))) (rule ∷ rules)
    → Takes on_match pkt pid
    → Run on_match pkt pid (rule ∷ rules) s st
unfolding dpar_match
dpar_match-Run on_match pkt pid rule rules s st valid takes =
    let w = walk-SeenOk pkt in
    let count = length (rule ∷ rules) in
    let (grown, sum, was) = sized_stats-grown count st.per_rule in
    let m =
      match_rules-Matched on_match pkt pid takes w.visits w.seen w.ok count (rule ∷ rules) s
        (seen_stats on_match pkt pid count st) false valid grown in
    let (st', done, kept, same, packets, rounds, matches) =
      finish-counters on_match pkt pid m.state m.stats (is_some_call m.calls) in
    record {
      visits = w.visits;
      result = w.result;
      calls = m.calls;
      state = m.state;
      stats = st';
      listed = w.listed;
      path = w.path;
      fire = m.fire;
      inside = m.inside;
      called = m.called;
      done = rw w.noted (rw m.runs (ap some done));
      balanced = λ before. kept (m.balanced (omega (arith, sum, before)));
      matched = λ j. omega (arith, m.matched j, was j, ap (λ per. matched_at per j) same);
      packets = packets ∙ m.packets;
      rounds = λ low. rounds ∙ m.rounds low;
      matches =
          matches ∙ ap (λ (k : ℕ). if is_some_call m.calls then (k + 1) % 2 ^ 64 else k) m.matches;
    }

-- A run of the matcher against its specification, for one rule or more as the compiler makes them, a
-- parser that takes every region inside the packet, and a counter of evaluations below 2^64. On every
-- packet the run ends without a read outside it. The headers that the packet's walk visits form a
-- path of the graph; a rule fires when, looked up in that list by the last visit of their nodes, the
-- headers of its predicates are visited and their fields compare as it says, and the header of its
-- region is visited and does not end behind the packet. The parser is called for exactly the rules
-- that fire, in rule order, each with a region inside the packet. The run counts the packet, one
-- evaluation for each rule, and the packet as matched when a rule fires, and for each rule the times
-- that it fires, modulo 2^64.
pub dpar_match-fired :
    {S : Type 0} (on_match : S → (kind pid rule_id begin end : ℕ) → Option (S × ℕ)) (pkt : List ℕ)
    (pid : ℕ) (rule : Rule) (rules : List Rule) (s : S) (st : EngineStats)
    → All (IsRule (length (rule ∷ rules))) (rule ∷ rules)
    → Takes on_match pkt pid
    → st.rules_evaluated < 2 ^ 64
    → (vs : List Visit) × (r : WalkResult) × (calls : List Call) × (s' : S) × (st' : EngineStats)
      × (walk pkt record_visit eth [] ≡ some (vs, r))
      × PathOf pkt (some eth) 0 vs r.consumed
      × (fired pkt vs (rule ∷ rules) ≡ some calls)
      × All (CallInPacket pkt) calls
      × (call_all on_match pkt pid s calls ≡ some s')
      × (dpar_match on_match pkt pid (rule ∷ rules) (s, st) ≡ some (s', st'))
      × (st'.packets_seen ≡ (st.packets_seen + 1) % 2 ^ 64)
      × (st'.rules_evaluated ≡ (st.rules_evaluated + length (rule ∷ rules)) % 2 ^ 64)
      × (st'.packets_matched_any ≡ (
          if is_some_call calls
          then (st.packets_matched_any + 1) % 2 ^ 64
          else st.packets_matched_any))
      × ((j : ℕ)
          → matched_at st'.per_rule j % 2 ^ 64
            ≡ (matched_at st.per_rule j + calls_of j calls) % 2 ^ 64)
dpar_match-fired on_match pkt pid rule rules s st valid takes low =
    let r = dpar_match-Run on_match pkt pid rule rules s st valid takes in
    (
      r.visits,
      r.result,
      r.calls,
      r.state,
      r.stats,
      r.listed,
      r.path,
      r.fire,
      r.inside,
      r.called,
      r.done,
      r.packets,
      r.rounds low,
      r.matches,
      r.matched,
    )

-- Where the rows counted by rule add up to the rows counted in all before a packet, modulo 2^64, they
-- do after it: for rules as the compiler makes them and a parser that takes every region inside the
-- packet, the matcher ends without a read outside the packet, whatever numbers of rows the parser
-- reports.
pub dpar_match-Balanced :
    {S : Type 0} (on_match : S → (kind pid rule_id begin end : ℕ) → Option (S × ℕ)) (pkt : List ℕ)
    (pid : ℕ) (rules : List Rule) (s : S) (st : EngineStats)
    → All (IsRule (length rules)) rules
    → Takes on_match pkt pid
    → Balanced st
    → (s' : S) × (st' : EngineStats) × (dpar_match on_match pkt pid rules (s, st) ≡ some (s', st'))
      × Balanced st'
unfolding dpar_match
dpar_match-Balanced on_match pkt pid [] s st valid takes before = (s, st, refl, before)
dpar_match-Balanced on_match pkt pid (rule ∷ rules) s st valid takes before =
    let r = dpar_match-Run on_match pkt pid rule rules s st valid takes in
    (r.state, r.stats, r.done, r.balanced before)
