-- ===== src/Dpar/Compile/Rules.antt =====
-- dpar.hpp: the rules of a text that compiles, and what a text that does not compile gives.
use nanotins.Shared.{
  ℕ, suc, ◌+◌, ◌^◌, ◌<◌, ◌≤◌, ◌≡◌, refl, sym, ap, ◌∙◌, arith, List, [], ◌∷◌, ◌++◌,
}
use nanotins.Shared.{length, length-append, All, All-append, All-map, some, true, false, get_elem?}
use nanotins.Shared.{◌==◌, Bool-cases, inl, inr, ◌≢◌, ◌⊎◌, subst}
use nanotins.Shared.Bits.{u16, u32}
use nanotins.WireSpec.{Spec, named_field, named_bit_field, named_bytes_field}
use nanotins.Dag.{Node, spec}
use nanotins.Dag.Nodes.{node_id}
use nanotins.Dpar.{Rule, RegionKind, max_predicates}
use nanotins.Dpar.Texts.{lines_from, tokenize}
use nanotins.Dpar.Catalog.{
  CatalogEntry, add_node_catalog, build_field_catalog, graph_nodes, build_l2l3_catalog, node_name,
}
use nanotins.Dpar.Safety.{CatalogField, anchor}
use nanotins.Dpar.Rounds.{IsRule}
use nanotins.Dpar.Compile.{
  RuleError, Draft, Compiled, CompileResult, add_draft, at_line, compile_lines, result_of,
  compile_rules, is_skipped, read_rule, anchor_node_id, anchor_name,
}
use nanotins.Dpar.Compile.Drafts.{Graphed, IsPredicate, Finished, read_rule-Finished}

-- The catalog of the graph.
u16-node_id : (n : Node) → u16 (node_id n) ≡ node_id n
u16-node_id n = ground arith

add_node_catalog-fields :
    (n : Node) (fs : Spec) (k : ℕ)
    → ((i : ℕ) → get_elem? fs i ≡ get_elem? (spec n) (k + i))
    → All (λ e. CatalogField e.ref) (add_node_catalog (node_id n) (node_name n) fs)
add_node_catalog-fields n [] k at = tt
add_node_catalog-fields n (named_bytes_field t o c ∷ fs) k at =
    add_node_catalog-fields n fs (suc k)
      (λ i. at (suc i) ∙ ap (λ (j : ℕ). get_elem? (spec n) j) (omega arith))
add_node_catalog-fields n (named_field t o c e ∷ fs) k at = (
  record {
    node = n;
    field = named_field t o c e;
    position = k + 0;
    listed = sym (at 0);
    made = refl;
  },
  add_node_catalog-fields n fs (suc k)
      (λ i. at (suc i) ∙ ap (λ (j : ℕ). get_elem? (spec n) j) (omega arith)),
)
add_node_catalog-fields n (named_bit_field t o c b w e ∷ fs) k at = (
  record {
    node = n;
    field = named_bit_field t o c b w e;
    position = k + 0;
    listed = sym (at 0);
    made = refl;
  },
  add_node_catalog-fields n fs (suc k)
      (λ i. at (suc i) ∙ ap (λ (j : ℕ). get_elem? (spec n) j) (omega arith)),
)

build_field_catalog-fields :
    (ns : List Node) → All (λ e. CatalogField e.ref) (build_field_catalog ns)
build_field_catalog-fields [] = tt
build_field_catalog-fields (n ∷ ns) =
    All-append (λ e. CatalogField e.ref) (add_node_catalog (u16 (node_id n)) (node_name n) (spec n))
      (build_field_catalog ns)
      (rw (u16-node_id n) (
        add_node_catalog-fields n (spec n) 0
          (λ i. ap (λ (j : ℕ). get_elem? (spec n) j) (omega arith))))
      (build_field_catalog-fields ns)

build_l2l3_catalog-Graphed : Graphed build_l2l3_catalog
unfolding build_l2l3_catalog anchor_node_id
build_l2l3_catalog-Graphed = record {
  entries = build_field_catalog-fields graph_nodes;
  anchors = anchored;
}
  where
    anchored :
        (kind : RegionKind)
        → anchor_node_id build_l2l3_catalog (anchor_name kind) ≡ some (node_id (anchor kind))
    anchored RegionKind.eth_payload = refl
    anchored RegionKind.vlan_payload = refl
    anchored RegionKind.udp_payload = refl
    anchored RegionKind.tcp_payload = refl
    anchored RegionKind.someip_payload = refl

-- A rule that passed validation: one that the matcher can run, with at most 6 predicates, each with an
-- operand that fits its field.
pub record Validated (count : ℕ) (rule : Rule) : Type 0 where
  pub runnable : IsRule count rule
  pub few : length rule.preds ≤ max_predicates
  pub fitting : All IsPredicate rule.preds

-- The rules of the lines so far, when they have no error.
Sound : ℕ → Compiled → Type 0
Sound ordinal c = c.errors ≡ [] → (length c.rules ≡ ordinal) × All (Validated ordinal) c.rules

both_empty {ℓ} : {A : Type ℓ} (xs ys : List A) → (xs ++ ys) ≡ [] → (xs ≡ []) × (ys ≡ [])
both_empty [] ys h = (refl, h)
both_empty (x ∷ xs) ys h = absurd cc

at_line-empty : (line_no : ℕ) (es : List RuleError) → at_line line_no es ≡ [] → es ≡ []
at_line-empty line_no [] h = refl
at_line-empty line_no (e ∷ es) h = absurd cc

Validated-more : (n : ℕ) (rule : Rule) → Validated n rule → Validated (n + 1) rule
Validated-more n rule v = record {
  runnable = record {
    fields = (v.runnable).fields;
    anchored = (v.runnable).anchored;
    counted = omega (arith, (v.runnable).counted);
  };
  few = v.few;
  fitting = v.fitting;
}

module _ (cat : List CatalogEntry) (graphed : Graphed cat) where
  add_draft-Sound :
      (line_no ordinal : ℕ) (d : Draft) (c : Compiled)
      → Finished cat graphed ordinal d
      → Sound ordinal c
      → Sound (ordinal + 1) (add_draft line_no d c)
  unfolding Sound
  add_draft-Sound line_no ordinal d c done sound clean =
      let (before, here) = both_empty c.errors (at_line line_no d.errs) clean in
      let (ok, (preds, few, id), anchored) = done (at_line-empty line_no d.errs here) in
      let (count, valid) = sound before in
      let new : Validated (ordinal + 1) d.rule = record {
        runnable = record {
          fields =
              All-map IsPredicate (λ p. CatalogField p.field) (λ p h. h.0) (d.rule).preds preds;
          anchored = anchored;
          counted = omega (arith, id);
        };
        few = few;
        fitting = preds;
      } in
      rw ok (
        omega (arith, length-append c.rules (d.rule ∷ []), count),
        All-append (Validated (ordinal + 1)) c.rules (d.rule ∷ [])
            (All-map (Validated ordinal) (Validated (ordinal + 1)) (Validated-more ordinal) c.rules
              valid)
            (new, tt),
      )

  compile_lines-Sound :
      (names : List (List ℕ)) (line_no ordinal : ℕ) (lines : List (List ℕ)) (c : Compiled)
      → ordinal + length lines < 2 ^ 32
      → Sound ordinal c
      → (total : ℕ) × Sound total (compile_lines cat names line_no ordinal lines c)
  unfolding compile_lines
  compile_lines-Sound names line_no ordinal [] c small sound = (ordinal, sound)
  compile_lines-Sound names line_no ordinal (line ∷ lines) c small sound =
      elim (Bool-cases (is_skipped (tokenize line))) [
        | inl skipped ↦
            rw (skipped, compile_lines)
              (compile_lines-Sound names (u32 (line_no + 1)) ordinal lines c (omega arith) sound)
        | inr read ↦
            let d = read_rule cat names ordinal (tokenize line) in
            let low : u32 (ordinal + 1) ≡ ordinal + 1 = omega arith in
            rw (read, compile_lines)
              (compile_lines-Sound names (u32 (line_no + 1)) (u32 (ordinal + 1)) lines
                (add_draft (u32 (line_no + 1)) d c) (omega arith)
                (rw low (
                  add_draft-Sound (u32 (line_no + 1)) ordinal d c
                    (read_rule-Finished cat graphed ordinal names (tokenize line)) sound)))
      ]

length-lines_from : (cur s : List ℕ) → length (lines_from cur s) ≤ suc (length s)
length-lines_from cur [] = omega arith
length-lines_from cur (c ∷ s) = elim (Bool-cases (c == 10)) [
  | inl e ↦ rw (e, lines_from) (omega (arith, length-lines_from [] s))
  | inr e ↦ rw (e, lines_from) (omega (arith, length-lines_from (cur ++ (c ∷ [])) s))
]

-- What a compiler's result says.
abbrev pub Verdict : CompileResult → Type 0
Verdict r =
    ((r.ok ≡ true) × (r.errors ≡ []) × All (Validated (length r.rules)) r.rules)
    ⊎ ((r.ok ≡ false) × (r.errors ≢ []) × (r.rules ≡ []))

-- compile_rules on the catalog of L2L3Graph, for every text shorter than 2^32 - 1 bytes and every
-- list of parser names: either it is ok, has no error, and every rule is validated: at most 6
-- predicates, each on a catalog field with an operand that fits the field's width, a region measured
-- from its own node, and an id below the number of rules; or it is not ok, has an error, and gives no
-- rule.
pub compile_rules-Verdict :
    (text : List ℕ) (names : List (List ℕ))
    → length text + 1 < 2 ^ 32
    → Verdict (compile_rules text build_l2l3_catalog names)
unfolding compile_rules Sound
compile_rules-Verdict text names small =
    let lines = lines_from [] text in
    let start : Compiled = record { rules = []; errors = [] } in
    let (total, sound) =
      compile_lines-Sound build_l2l3_catalog build_l2l3_catalog-Graphed names 0 0 lines start
        (omega (arith, length-lines_from [] text)) (λ clean. (refl, tt)) in
    go total (compile_lines build_l2l3_catalog names 0 0 lines start) sound
  where
    go : (total : ℕ) (c : Compiled) → Sound total c → Verdict (result_of c)
    go total c sound = judge c.errors refl
      where
        judge : (es : List (ℕ × RuleError)) → c.errors ≡ es → Verdict (result_of c)
        judge [] e =
            let (count, valid) = sound e in
            rw e (inl (refl, refl, subst (λ n. All (Validated n) c.rules) (sym count) valid))
        judge (x ∷ es) e = rw e (inr (refl, (λ h. cc), refl))
