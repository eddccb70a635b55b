-- ===== src/Dpar/Compile.antt =====
-- nanotins/include/nanotins/dpar.hpp: compile_rules, the compiler of rules texts. An error message is
-- a value with the texts that the source puts into it, and its line's number.
pub mod Drafts
pub mod Rules
pub mod Run
use nanotins.Shared.{
  ℕ, zero, suc, ◌+◌, ◌*◌, ◌^◌, List, [], ◌∷◌, ◌++◌, length, Option, none, some, Bool, true, false,
}
use nanotins.Shared.{ltb, leb, if◌then◌else◌, ◌==◌, ◌&&◌, not, take}
use nanotins.Shared.Bits.{u16, u32}
use nanotins.Dpar.{CmpOp, RegionKind, FieldRef, Predicate, RegionSel, Rule, max_predicates}
use nanotins.Dpar.Texts.{
  codes, bytes_eq, c_str, lines_from, tokenize, split_at, parse_u64, strip_quotes,
}
use nanotins.Dpar.Catalog.{CatalogEntry, find_field}

pub data RuleError : Type 0 where
  expected_predicate expected_arrow expected_parser expected_region : RuleError
  must_be_node_field unknown_comparator not_integer unknown_field unknown_parser unknown_region :
      List ℕ → RuleError
  overflows : (vals lhs : List ℕ) (bits : ℕ) → RuleError
  too_many_predicates : RuleError
  anchor_not_in_graph : List ℕ → RuleError

unfoldable pub parse_op : List ℕ → Option CmpOp
parse_op s =
    if bytes_eq s (codes "==")
    then some CmpOp.eq
    else (if bytes_eq s (codes "<")
        then some CmpOp.lt
        else (if bytes_eq s (codes ">")
            then some CmpOp.gt
            else (if bytes_eq s (codes "<=")
                then some CmpOp.le
                else (if bytes_eq s (codes ">=") then some CmpOp.ge else none))))

unfoldable pub parse_region : List ℕ → Option RegionKind
parse_region s =
    if bytes_eq s (codes "eth_payload")
    then some RegionKind.eth_payload
    else (if bytes_eq s (codes "vlan_payload")
        then some RegionKind.vlan_payload
        else (if bytes_eq s (codes "udp_payload")
            then some RegionKind.udp_payload
            else (if bytes_eq s (codes "tcp_payload")
                then some RegionKind.tcp_payload
                else (if bytes_eq s (codes "someip_payload")
                    then some RegionKind.someip_payload
                    else none))))

-- The name that parse_region gives a region's anchor.
abbrev pub anchor_name : RegionKind → List ℕ
anchor_name RegionKind.eth_payload = codes "eth"
anchor_name RegionKind.vlan_payload = codes "vlan"
anchor_name RegionKind.udp_payload = codes "udp"
anchor_name RegionKind.tcp_payload = codes "tcp"
anchor_name RegionKind.someip_payload = codes "someip"

-- -1 is `none`.
unfoldable pub anchor_node_id : List CatalogEntry → List ℕ → Option ℕ
anchor_node_id [] node = none
anchor_node_id (e ∷ cat) node =
    if bytes_eq (codes e.node) node then some ((e.ref).node_id) else anchor_node_id cat node

-- The rule of a line while it is read, `rule_ok`, and the errors of the line.
pub record Draft : Type 0 where
  pub rule : Rule
  pub rule_ok : Bool
  pub errs : List RuleError

-- `err(...); rule_ok = false;`.
abbrev pub fail : RuleError → Draft → Draft
fail e d = record { rule = d.rule; rule_ok = false; errs = d.errs ++ (e ∷ []) }

abbrev pub fail_when_none {ℓ} : {A : Type ℓ} → Option A → RuleError → Draft → Draft
fail_when_none none e d = fail e d
fail_when_none (some a) e d = d

abbrev pub fail_unless : Bool → RuleError → Draft → Draft
fail_unless true e d = d
fail_unless false e d = fail e d

abbrev pub or_else {ℓ} : {A : Type ℓ} → Option A → A → A
or_else none a = a
or_else (some b) a = b

abbrev pub field_bits : FieldRef → ℕ
field_bits f = if f.is_bitfield then f.bit_width else f.byte_width * 8

-- `rule.preds[rule.n_preds++] = ...`.
abbrev pub add_pred : Predicate → Rule → Rule
add_pred p r = record {
  preds = r.preds ++ (p ∷ []);
  parser_kind = r.parser_kind;
  region = r.region;
  rule_id = r.rule_id;
  priority = r.priority;
  name = r.name;
}

abbrev pub keep_pred : Predicate → Draft → Draft
keep_pred p d =
    if leb max_predicates (length (d.rule).preds)
    then fail too_many_predicates d
    else record { rule = add_pred p d.rule; rule_ok = d.rule_ok; errs = d.errs }

-- A predicate on the entry that was found.
abbrev pub add_field :
    (lhs vals : List ℕ) → CmpOp → (operand : ℕ) → Draft → Option CatalogEntry → Draft
add_field lhs vals op operand d none = fail (unknown_field lhs) d
add_field lhs vals op operand d (some ce) =
    let bits = field_bits ce.ref in
    keep_pred (record { field = ce.ref; op = op; operand = operand })
      (if ltb bits 64 && leb (2 ^ bits) operand then fail (overflows vals lhs bits) d else d)

-- A predicate, split at its dot.
abbrev pub add_parts :
    List CatalogEntry → (lhs ops vals : List ℕ) → Draft → Option (List ℕ × List ℕ) → Draft
add_parts cat lhs ops vals d none =
    fail_unless (parse_u64 vals 0).0 (not_integer vals)
      (fail_when_none (parse_op ops) (unknown_comparator ops) (fail (must_be_node_field lhs) d))
add_parts cat lhs ops vals d (some (node, field)) =
    add_field lhs vals (or_else (parse_op ops) CmpOp.eq) (parse_u64 vals 0).1
      (fail_unless (parse_u64 vals 0).0 (not_integer vals)
        (fail_when_none (parse_op ops) (unknown_comparator ops) d))
      (find_field cat node field)

unfoldable pub read_pred : List CatalogEntry → (lhs ops vals : List ℕ) → Draft → Draft
read_pred cat lhs ops vals d = add_parts cat lhs ops vals d (split_at 46 lhs)

-- The loop over predicates; the tokens behind them are beside the draft.
unfoldable pub read_preds : List CatalogEntry → List (List ℕ) → Draft → Draft × List (List ℕ)
read_preds cat (lhs ∷ ops ∷ vals ∷ t ∷ rest) d = elim (bytes_eq t (codes "&&")) [
  | true ↦ read_preds cat rest (read_pred cat lhs ops vals d)
  | false ↦ (read_pred cat lhs ops vals d, t ∷ rest)
]
read_preds cat (lhs ∷ ops ∷ vals ∷ []) d = (read_pred cat lhs ops vals d, [])
read_preds cat toks d = (fail expected_predicate d, toks)

-- The position of a name.
unfoldable pub find_parser : List (List ℕ) → List ℕ → ℕ → Option ℕ
find_parser [] parser k = none
find_parser (n ∷ names) parser k =
    if bytes_eq n parser then some (u16 k) else find_parser names parser (k + 1)

abbrev pub set_parser : ℕ → Draft → Draft
set_parser kind d = record {
  rule = record {
    preds = (d.rule).preds;
    parser_kind = kind;
    region = (d.rule).region;
    rule_id = (d.rule).rule_id;
    priority = (d.rule).priority;
    name = (d.rule).name;
  };
  rule_ok = d.rule_ok;
  errs = d.errs;
}

abbrev pub set_region : RegionSel → Draft → Draft
set_region rs d = record {
  rule = record {
    preds = (d.rule).preds;
    parser_kind = (d.rule).parser_kind;
    region = rs;
    rule_id = (d.rule).rule_id;
    priority = (d.rule).priority;
    name = (d.rule).name;
  };
  rule_ok = d.rule_ok;
  errs = d.errs;
}

abbrev pub set_name : List ℕ → Draft → Draft
set_name name d = record {
  rule = record {
    preds = (d.rule).preds;
    parser_kind = (d.rule).parser_kind;
    region = (d.rule).region;
    rule_id = (d.rule).rule_id;
    priority = (d.rule).priority;
    name = name;
  };
  rule_ok = d.rule_ok;
  errs = d.errs;
}

unfoldable pub read_parser : List (List ℕ) → (parser : List ℕ) → Draft → Draft
read_parser names parser d =
    set_parser (or_else (find_parser names parser 0) 0)
      (fail_when_none (find_parser names parser 0) (unknown_parser parser) d)

unfoldable pub read_region : List CatalogEntry → (region : List ℕ) → Draft → Draft
read_region cat region d = elim (parse_region region) [
  | none ↦ fail (unknown_region region) d
  | some kind ↦ elim (anchor_node_id cat (anchor_name kind)) [
    | none ↦ fail (anchor_not_in_graph (anchor_name kind)) d
    | some id ↦ set_region (record { kind = kind; anchor_node_id = u16 id }) d
  ]
]

-- The label behind the region, cut to 31 bytes.
abbrev pub read_label : List (List ℕ) → Draft → Draft
read_label [] d = d
read_label (t ∷ toks) d = set_name (take 31 (c_str (strip_quotes t))) d

-- What follows the predicates.
unfoldable pub read_target :
    List CatalogEntry → (parser_names : List (List ℕ)) → List (List ℕ) → Draft → Draft
read_target cat names [] d = fail expected_arrow d
read_target cat names (arrow ∷ toks) d = elim (bytes_eq arrow (codes "=>")) [
  | false ↦ fail expected_arrow d
  | true ↦ elim toks [
    | [] ↦ fail expected_region (fail expected_parser d)
    | parser ∷ [] ↦ fail expected_region (read_parser names parser d)
    | parser ∷ region ∷ rest ↦ read_label rest (read_region cat region (read_parser names parser d))
  ]
]

-- `Rule{}` with its id and priority.
abbrev pub new_draft : (ordinal : ℕ) → Draft
new_draft ordinal = record {
  rule = record {
    preds = [];
    parser_kind = 0;
    region = record { kind = RegionKind.udp_payload; anchor_node_id = 0 };
    rule_id = ordinal;
    priority = u16 ordinal;
    name = [];
  };
  rule_ok = true;
  errs = [];
}

unfoldable pub read_rule :
    List CatalogEntry → (parser_names : List (List ℕ)) → (ordinal : ℕ) → List (List ℕ) → Draft
read_rule cat names ordinal toks =
    let p = read_preds cat toks (new_draft ordinal) in read_target cat names p.1 p.0

abbrev pub is_comment : List ℕ → Bool
is_comment [] = false
is_comment (c ∷ s) = c == 35

-- A blank line or a comment.
abbrev pub is_skipped : List (List ℕ) → Bool
is_skipped [] = true
is_skipped (t ∷ toks) = is_comment t

-- The rules and the errors so far.
pub record Compiled : Type 0 where
  pub rules : List Rule
  pub errors : List (ℕ × RuleError)

abbrev pub at_line : ℕ → List RuleError → List (ℕ × RuleError)
at_line line_no [] = []
at_line line_no (e ∷ es) = (line_no, e) ∷ at_line line_no es

abbrev pub add_draft : (line_no : ℕ) → Draft → Compiled → Compiled
add_draft line_no d c = record {
  rules = if d.rule_ok then c.rules ++ (d.rule ∷ []) else c.rules;
  errors = c.errors ++ at_line line_no d.errs;
}

unfoldable pub compile_lines :
    List CatalogEntry
    → (parser_names : List (List ℕ)) → (line_no ordinal : ℕ) → List (List ℕ)
    → Compiled
    → Compiled
compile_lines cat names line_no ordinal [] c = c
compile_lines cat names line_no ordinal (line ∷ lines) c = elim (is_skipped (tokenize line)) [
  | true ↦ compile_lines cat names (u32 (line_no + 1)) ordinal lines c
  | false ↦
      compile_lines cat names (u32 (line_no + 1)) (u32 (ordinal + 1)) lines
        (add_draft (u32 (line_no + 1)) (read_rule cat names ordinal (tokenize line)) c)
]

pub record CompileResult : Type 0 where
  pub ok : Bool
  pub rules : List Rule
  pub errors : List (ℕ × RuleError)

abbrev pub result_of : Compiled → CompileResult
result_of c = elim c.errors [
  | [] ↦ record { ok = true; rules = c.rules; errors = [] }
  | e ∷ es ↦ record { ok = false; rules = []; errors = e ∷ es }
]

unfoldable pub compile_rules :
    (text : List ℕ) → List CatalogEntry → (parser_names : List (List ℕ)) → CompileResult
compile_rules text cat names =
    result_of
      (compile_lines cat names 0 0 (lines_from [] text) (record { rules = []; errors = [] }))
