-- ===== src/Dpar/Match.antt =====
-- nanotins/include/nanotins/dpar.hpp: the regions of matched rules, and the matcher. The parser that a
-- match calls, `on_match`, is a parameter with a state of its own; it returns the rows it emitted.
use nanotins.Shared.{ℕ, ◌+◌, ◌*◌, List, [], ◌∷◌, length, Option, none, some, Bool, true, false}
use nanotins.Shared.{ltb, leb, if◌then◌else◌, ◌>>=◌, replicate, write_at}
use nanotins.Shared.Bits.{u64}
use nanotins.WireSpec.{view}
use nanotins.WireSpec.Protocols.{tcp_spec}
use nanotins.WireSpec.Protocols.Someip.{someip_spec}
use nanotins.Bulk.{resize_table}
use nanotins.Shared.{get_elem?}
use nanotins.Dag.{Node, eth, walk}
use nanotins.Dag.Nodes.{node_id}
use nanotins.Dpar.{Predicate, RegionKind, RegionSel, Rule, read_field_runtime, cmp_apply}

pub record RuleStat : Type 0 where
  pub matched : ℕ
  pub rows_emitted : ℕ

pub record EngineStats : Type 0 where
  pub packets_seen : ℕ
  pub packets_matched_any : ℕ
  pub rules_evaluated : ℕ
  pub rows_emitted : ℕ
  pub per_rule : List RuleStat

-- The arrays `off_by_node` and `present`.
pub record Seen : Type 0 where
  pub off_by_node : List ℕ
  pub present : List Bool

abbrev pub graph_size : ℕ
graph_size = 17

abbrev pub none_seen : Seen
none_seen = record { off_by_node = replicate graph_size 0; present = replicate graph_size false }

-- The visitor of the matcher's walk.
abbrev pub note_visit : Seen → Node → ℕ → Option Seen
note_visit s n off = write_at s.off_by_node (node_id n) off >>= λ offs.
    write_at s.present (node_id n) true >>= λ ps. some (record { off_by_node = offs; present = ps })

-- The length of a TCP header with its options.
abbrev pub tcp_header : (data_offset : ℕ) → ℕ
tcp_header data_offset = if leb 20 (data_offset * 4) then data_offset * 4 else 20

-- The bounds of a region before they are clamped.
unfoldable pub region_bounds : List ℕ → RegionKind → (aoff : ℕ) → Option (ℕ × ℕ)
region_bounds pkt RegionKind.eth_payload aoff = some (aoff + 14, length pkt)
region_bounds pkt RegionKind.vlan_payload aoff = some (aoff + 4, length pkt)
region_bounds pkt RegionKind.udp_payload aoff = some (aoff + 8, length pkt)
region_bounds pkt RegionKind.tcp_payload aoff =
    view pkt aoff tcp_spec "data_offset" >>= λ d. some (aoff + tcp_header d, length pkt)
region_bounds pkt RegionKind.someip_payload aoff = view pkt aoff someip_spec "length" >>= λ n.
    some (aoff + 16, if ltb (aoff + 8 + n) (length pkt) then aoff + 8 + n else length pkt)

-- `some none` is false.
unfoldable pub resolve_region : List ℕ → RegionSel → Seen → Option (Option (ℕ × ℕ))
resolve_region pkt rs seen = get_elem? seen.present rs.anchor_node_id >>= λ there. elim there [
  | false ↦ some none
  | true ↦ get_elem? seen.off_by_node rs.anchor_node_id >>= λ aoff.
      region_bounds pkt rs.kind aoff >>= λ r.
      some (if ltb (length pkt) r.0 then none else some (r.0, if ltb r.1 r.0 then r.0 else r.1))
]

-- The predicates of a rule, up to the first that is false.
unfoldable pub preds_hold : List ℕ → Seen → List Predicate → Option Bool
preds_hold pkt seen [] = some true
preds_hold pkt seen (p ∷ ps) = get_elem? seen.present (p.field).node_id >>= λ there. elim there [
  | false ↦ some false
  | true ↦ get_elem? seen.off_by_node (p.field).node_id >>= λ off.
      read_field_runtime pkt off p.field >>= λ v. elim (cmp_apply v p.op p.operand) [
        | false ↦ some false
        | true ↦ preds_hold pkt seen ps
      ]
]

-- The region that a rule hands to its parser: none when a predicate or the region fails.
abbrev pub rule_region : List ℕ → Seen → Rule → Option (Option (ℕ × ℕ))
rule_region pkt seen rule = preds_hold pkt seen rule.preds >>= λ ok. elim ok [
  | false ↦ some none
  | true ↦ resolve_region pkt rule.region seen
]

abbrev pub zero_stat : RuleStat
zero_stat = record { matched = 0; rows_emitted = 0 }

abbrev pub sized_stats : ℕ → List RuleStat → List RuleStat
sized_stats n stats = if ltb (length stats) n then resize_table zero_stat n stats else stats

abbrev pub evaluated : EngineStats → EngineStats
evaluated st = record {
  packets_seen = st.packets_seen;
  packets_matched_any = st.packets_matched_any;
  rules_evaluated = u64 (st.rules_evaluated + 1);
  rows_emitted = st.rows_emitted;
  per_rule = st.per_rule;
}

-- The counters after a match that emitted `rows`.
abbrev pub matched_stats : EngineStats → (rule_id rows : ℕ) → Option EngineStats
matched_stats st rule_id rows = get_elem? st.per_rule rule_id >>= λ r.
    write_at st.per_rule rule_id
      (record { matched = u64 (r.matched + 1); rows_emitted = u64 (r.rows_emitted + rows) })
    >>= λ per. some (record {
      packets_seen = st.packets_seen;
      packets_matched_any = st.packets_matched_any;
      rules_evaluated = st.rules_evaluated;
      rows_emitted = u64 (st.rows_emitted + rows);
      per_rule = per;
    })

module _ {S : Type 0} (on_match : S → (kind pid rule_id begin end : ℕ) → Option (S × ℕ))
    (pkt : List ℕ) (pid : ℕ) where
  -- The loop over the rules: the parser's state, the counters, and `any`.
  unfoldable pub match_rules :
      Seen → List Rule → S × EngineStats × Bool → Option (S × EngineStats × Bool)
  match_rules seen [] (s, st, any) = some (s, st, any)
  match_rules seen (rule ∷ rules) (s, st, any) = rule_region pkt seen rule >>= λ r. elim r [
    | none ↦ match_rules seen rules (s, evaluated st, any)
    | some (b, e) ↦ on_match s rule.parser_kind pid rule.rule_id b e >>= λ t.
        matched_stats (evaluated st) rule.rule_id t.1 >>= λ st'.
        match_rules seen rules (t.0, st', true)
  ]

  abbrev pub seen_stats : ℕ → EngineStats → EngineStats
  seen_stats n st = record {
    packets_seen = u64 (st.packets_seen + 1);
    packets_matched_any = st.packets_matched_any;
    rules_evaluated = st.rules_evaluated;
    rows_emitted = st.rows_emitted;
    per_rule = sized_stats n st.per_rule;
  }

  abbrev pub finish : S × EngineStats × Bool → S × EngineStats
  finish (s, st, false) = (s, st)
  finish (s, st, true) = (
    s,
    record {
      packets_seen = st.packets_seen;
      packets_matched_any = u64 (st.packets_matched_any + 1);
      rules_evaluated = st.rules_evaluated;
      rows_emitted = st.rows_emitted;
      per_rule = st.per_rule;
    },
  )

  unfoldable pub dpar_match : List Rule → S × EngineStats → Option (S × EngineStats)
  dpar_match [] (s, st) = some (s, st)
  dpar_match (rule ∷ rules) (s, st) = walk pkt note_visit eth none_seen >>= λ t.
      match_rules t.0 (rule ∷ rules) (s, seen_stats (length (rule ∷ rules)) st, false) >>= λ r.
      some (finish r)
