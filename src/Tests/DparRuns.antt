-- ===== src/Tests/DparRuns.antt =====
-- The rule engine: the theorems at a rule on the EtherType.
use nanotins.Shared.{
  true, ℕ, ◌+◌, ◌-◌, ◌%◌, ◌^◌, ◌≡◌, refl, arith, List, [], ◌∷◌, Option, some, All,
}
use nanotins.Shared.{if◌then◌else◌, ◌>>=◌}
use nanotins.Shared.Buffer.{byte_at}
use nanotins.WireSpec.{big_loop, WireEndian, named_field, read_field, as_number}
use nanotins.Dag.{eth, walk, WalkResult}
use nanotins.Dpar.{FieldRef, CmpOp, RegionKind, Rule, read_field_runtime}
use nanotins.Dpar.Catalog.{scalar_ref}
use nanotins.Dpar.Match.{EngineStats, dpar_match, region_bounds}
use nanotins.Dpar.Reader
use nanotins.Dpar.Texts.{codes, tokenize, split_at, parse_u64, strtoull, strip_quotes}
use nanotins.Dpar.Catalog.{find_field, build_l2l3_catalog}
use nanotins.Dpar.Compile.{
  RuleError, compile_rules, compile_lines, read_rule, read_preds, read_pred, parse_op, read_target,
  read_parser, find_parser, read_region, parse_region, anchor_node_id,
}
use nanotins.Dpar.Compile.Rules
use nanotins.Dpar.Compile.Rules.{Verdict}
use nanotins.Dpar.Compile.Run
use nanotins.Dpar.Stats.{matched_at, Balanced}
use nanotins.Dpar.Engine
use nanotins.Dpar.Rounds.{IsRule, CallInPacket, calls_of, call_all, is_some_call}
use nanotins.Dpar.Fires.{Call, fires, fired}
use nanotins.Dag.Trace.{Visit, PathOf, record_visit}

abbrev frame : List ℕ
frame = 1 ∷ 1 ∷ 1 ∷ 1 ∷ 1 ∷ 1 ∷ 2 ∷ 2 ∷ 2 ∷ 2 ∷ 2 ∷ 2 ∷ 0x12 ∷ 0x34 ∷ 5 ∷ []

abbrev ethertype_ref : FieldRef
ethertype_ref = scalar_ref 0 12 2 WireEndian.big

read_field_runtime-read_field_example :
    read_field_runtime frame 0 ethertype_ref
    ≡ (read_field frame 0 (named_field "ethertype" 12 2 WireEndian.big) >>= as_number)
read_field_runtime-read_field_example =
    Reader.read_field_runtime-read_field frame 0 eth 2 (named_field "ethertype" 12 2 WireEndian.big)
      ethertype_ref (ground arith) refl refl

-- `eth.ethertype == 0x1234 => parser eth_payload`.
abbrev on_ethertype : Rule
on_ethertype = record {
  preds = record { field = ethertype_ref; op = CmpOp.eq; operand = 0x1234 } ∷ [];
  parser_kind = 0;
  region = record { kind = RegionKind.eth_payload; anchor_node_id = 0 };
  rule_id = 0;
  priority = 0;
  name = [];
}

on_ethertype-IsRule : IsRule 1 on_ethertype
on_ethertype-IsRule = record {
  fields = (
    record {
      node = eth;
      field = named_field "ethertype" 12 2 WireEndian.big;
      position = 2;
      listed = refl;
      made = refl;
    },
    tt,
  );
  anchored = refl;
  counted = omega arith;
}

abbrev no_stats : EngineStats
no_stats = record {
  packets_seen = 0;
  packets_matched_any = 0;
  rules_evaluated = 0;
  rows_emitted = 0;
  per_rule = [];
}

-- A parser that adds up the sizes of its regions.
abbrev add_size : ℕ → (kind pid rule_id begin end : ℕ) → Option (ℕ × ℕ)
add_size s kind pid rule_id begin end = some (s + (end - begin), 1)

dpar_match-fired_example :
    (vs : List Visit) × (r : WalkResult) × (calls : List Call) × (s' : ℕ) × (st' : EngineStats)
    × (walk frame record_visit eth [] ≡ some (vs, r))
    × PathOf frame (some eth) 0 vs r.consumed
    × (fired frame vs (on_ethertype ∷ []) ≡ some calls)
    × All (CallInPacket frame) calls
    × (call_all add_size frame 7 0 calls ≡ some s')
    × (dpar_match add_size frame 7 (on_ethertype ∷ []) (0, no_stats) ≡ some (s', st'))
    × (st'.packets_seen ≡ (0 + 1) % 2 ^ 64)
    × (st'.rules_evaluated ≡ (0 + 1) % 2 ^ 64)
    × (st'.packets_matched_any ≡ (if is_some_call calls then (0 + 1) % 2 ^ 64 else 0))
    × ((j : ℕ)
        → matched_at st'.per_rule j % 2 ^ 64
          ≡ (matched_at no_stats.per_rule j + calls_of j calls) % 2 ^ 64)
dpar_match-fired_example =
    Engine.dpar_match-fired add_size frame 7 on_ethertype [] 0 no_stats (on_ethertype-IsRule, tt)
      (λ s kind rule_id b e order short. ((s + (e - b), 1), refl)) (omega arith)

dpar_match-Balanced_example :
    (s' : ℕ) × (st' : EngineStats) × (dpar_match add_size frame 7 (on_ethertype ∷ []) (0, no_stats)
      ≡ some (s', st'))
    × Balanced st'
dpar_match-Balanced_example =
    Engine.dpar_match-Balanced add_size frame 7 (on_ethertype ∷ []) 0 no_stats
      (on_ethertype-IsRule, tt) (λ s kind rule_id b e order short. ((s + (e - b), 1), refl)) refl

-- On the frame the rule fires, with the byte behind the Ethernet header.
on_ethertype-fires : fires frame ((eth, 0) ∷ []) on_ethertype ≡ some (some (14, 15))
unfolding region_bounds read_field_runtime big_loop byte_at
on_ethertype-fires = refl

-- `eth.ethertype == 0x1234 => p eth_payload`, compiled.
abbrev rules_text : List ℕ
rules_text = codes "eth.ethertype == 0x1234 => p eth_payload"

abbrev parser_names : List (List ℕ)
parser_names = codes "p" ∷ []

accepted : (compile_rules rules_text build_l2l3_catalog parser_names).ok ≡ true
unfolding compile_rules compile_lines tokenize read_rule read_preds read_pred split_at parse_op
    parse_u64 strtoull find_field build_l2l3_catalog read_target read_parser find_parser read_region
    parse_region anchor_node_id strip_quotes
accepted = refl

compile_rules-Verdict_example : Verdict (compile_rules rules_text build_l2l3_catalog parser_names)
compile_rules-Verdict_example = Rules.compile_rules-Verdict rules_text parser_names (omega arith)

compile_rules-dpar_match_example :
    (s' : ℕ) × (st' : EngineStats) × (dpar_match add_size frame 7
        (compile_rules rules_text build_l2l3_catalog parser_names).rules
        (0, no_stats)
      ≡ some (s', st'))
compile_rules-dpar_match_example =
    Run.compile_rules-dpar_match rules_text parser_names add_size frame 7 0 no_stats (omega arith)
      accepted (λ s kind rule_id b e order short. ((s + (e - b), 1), refl))

-- An operand with a letter behind its digits is no integer, and the digits overflow the field.
both_errors :
    (compile_rules
      (codes "udp.dst_port == 70000x => p udp_payload")
      build_l2l3_catalog
      parser_names).errors
    ≡ (1, RuleError.not_integer (codes "70000x"))
      ∷ (1, RuleError.overflows (codes "70000x") (codes "udp.dst_port") 16)
      ∷ []
unfolding compile_rules compile_lines tokenize read_rule read_preds read_pred split_at parse_op
    parse_u64 strtoull find_field build_l2l3_catalog read_target read_parser find_parser read_region
    parse_region anchor_node_id strip_quotes
both_errors = refl
