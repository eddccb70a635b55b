-- ===== src/Dpar/Compile/Drafts.antt =====
-- dpar.hpp: the rule of a line without errors. Every error is collected, and a line without one makes
-- a rule whose fields are the catalog's, whose operands fit them, and whose region is measured from
-- its node.
use nanotins.Shared.{ℕ, ◌^◌, ◌≤◌, ◌≡◌, refl, sym, subst, arith, List, [], ◌∷◌, ◌++◌}
use nanotins.Shared.{
  length, length-append, All, All-append, Option, none, some, Bool, true, false, Option-cases,
}
use nanotins.Shared.{ltb, leb, if◌then◌else◌, ◌&&◌, Bool-cases, inl, inr}
use nanotins.Shared.Bits.{u16}
use mathlib.Core.Option.{some-injective}
use nanotins.Dag.Nodes.{node_id}
use nanotins.Dpar.{Predicate, CmpOp, RegionKind, Rule, max_predicates}
use nanotins.Dpar.Texts.{codes, bytes_eq, split_at, parse_u64, c_str}
use nanotins.Dpar.Catalog.{CatalogEntry, find_field}
use nanotins.Dpar.Safety.{CatalogField, anchor}
use nanotins.Dpar.Compile.{
  RuleError, Draft, fail, fail_when_none, fail_unless, field_bits, keep_pred, add_field, add_parts,
  read_pred, read_preds, parse_op, parse_region, anchor_name, anchor_node_id, find_parser,
  read_parser, read_region, read_label, read_target, new_draft, read_rule,
}

-- The entries of a catalog refer to fields of the graph, and the anchors are the graph's nodes.
pub record Graphed (cat : List CatalogEntry) : Type 0 where
  pub entries : All (λ e. CatalogField e.ref) cat
  pub anchors :
      (kind : RegionKind) → anchor_node_id cat (anchor_name kind) ≡ some (node_id (anchor kind))

-- A predicate on a catalog field, whose operand fits the field.
abbrev pub IsPredicate : Predicate → Type 0
IsPredicate p =
    CatalogField p.field
    × ((ltb (field_bits p.field) 64 && leb (2 ^ field_bits p.field) p.operand) ≡ false)

-- What a rule with the id `ordinal` has before its region is read.
abbrev pub Started : ℕ → Rule → Type 0
Started ordinal r =
    All IsPredicate r.preds × (length r.preds ≤ max_predicates) × (r.rule_id ≡ ordinal)

abbrev pub Draftable : ℕ → Draft → Type 0
Draftable ordinal d = d.errs ≡ [] → (d.rule_ok ≡ true) × Started ordinal d.rule

append-nonempty {ℓ} : {A : Type ℓ} {B : Type 0} (xs : List A) (y : A) → (xs ++ (y ∷ [])) ≡ [] → B
append-nonempty [] y h = absurd cc
append-nonempty (x ∷ xs) y h = absurd cc

fail-Draftable : (ordinal : ℕ) (e : RuleError) (d : Draft) → Draftable ordinal (fail e d)
fail-Draftable ordinal e d h = append-nonempty d.errs e h

fail_when_none-Draftable {ℓ} :
    {A : Type ℓ} (ordinal : ℕ) (o : Option A) (e : RuleError) (d : Draft)
    → Draftable ordinal d
    → Draftable ordinal (fail_when_none o e d)
fail_when_none-Draftable ordinal none e d h = fail-Draftable ordinal e d
fail_when_none-Draftable ordinal (some a) e d h = h

fail_unless-Draftable :
    (ordinal : ℕ) (b : Bool) (e : RuleError) (d : Draft)
    → Draftable ordinal d
    → Draftable ordinal (fail_unless b e d)
fail_unless-Draftable ordinal true e d h = h
fail_unless-Draftable ordinal false e d h = fail-Draftable ordinal e d

keep_pred-Draftable :
    (ordinal : ℕ) (p : Predicate) (d : Draft)
    → Draftable ordinal d
    → (d.errs ≡ [] → IsPredicate p)
    → Draftable ordinal (keep_pred p d)
keep_pred-Draftable ordinal p d h good =
    elim (Bool-cases (leb max_predicates (length (d.rule).preds))) [
      | inl full ↦ rw full (fail-Draftable ordinal RuleError.too_many_predicates d)
      | inr room ↦ rw room (λ clean.
          let (ok, (preds, few, id)) = h clean in
          (
            ok,
            (
              All-append IsPredicate (d.rule).preds (p ∷ []) preds (good clean, tt),
              ground (arith, length-append (d.rule).preds (p ∷ [])),
              id,
            ),
          ))
    ]

find_field-CatalogField :
    (cat : List CatalogEntry) (node field : List ℕ) (ce : CatalogEntry)
    → All (λ e. CatalogField e.ref) cat
    → find_field cat node field ≡ some ce
    → CatalogField ce.ref
unfolding find_field
find_field-CatalogField [] node field ce h e = absurd cc
find_field-CatalogField (c ∷ cat) node field ce (h, hs) e =
    elim (Bool-cases
      (bytes_eq (codes c.node) (c_str node) && bytes_eq (codes c.field) (c_str field))) [
        | inl hit ↦ subst (λ e. CatalogField e.ref) (some-injective c ce (rw hit at e)) h
        | inr miss ↦ find_field-CatalogField cat node field ce hs (rw miss at e)
      ]

module _ (cat : List CatalogEntry) (graphed : Graphed cat) (ordinal : ℕ) where
  add_field-Draftable :
      (lhs vals : List ℕ) (op : CmpOp) (operand : ℕ) (d : Draft) (found : Option CatalogEntry)
      → ((ce : CatalogEntry) → found ≡ some ce → CatalogField ce.ref)
      → Draftable ordinal d
      → Draftable ordinal (add_field lhs vals op operand d found)
  add_field-Draftable lhs vals op operand d none listed h =
      fail-Draftable ordinal (RuleError.unknown_field lhs) d
  add_field-Draftable lhs vals op operand d (some ce) listed h =
      let bits = field_bits ce.ref in
      let p : Predicate = record { field = ce.ref; op = op; operand = operand } in
      let over : RuleError = RuleError.overflows vals lhs bits in
      elim (Bool-cases (ltb bits 64 && leb (2 ^ bits) operand)) [
        | inl big ↦
            subst (λ b. Draftable ordinal (keep_pred p (if b then fail over d else d))) (sym big)
              (keep_pred-Draftable ordinal p (fail over d) (fail-Draftable ordinal over d)
                (append-nonempty d.errs over))
        | inr fit ↦
            subst (λ b. Draftable ordinal (keep_pred p (if b then fail over d else d))) (sym fit)
              (keep_pred-Draftable ordinal p d h (λ clean. (listed ce refl, fit)))
      ]

  add_parts-Draftable :
      (lhs ops vals : List ℕ) (d : Draft) (dot : Option (List ℕ × List ℕ))
      → Draftable ordinal d
      → Draftable ordinal (add_parts cat lhs ops vals d dot)
  add_parts-Draftable lhs ops vals d none h =
      fail_unless-Draftable ordinal (parse_u64 vals 0).0 _ _ (
        fail_when_none-Draftable ordinal (parse_op ops) _ _
          (fail-Draftable ordinal (RuleError.must_be_node_field lhs) d))
  add_parts-Draftable lhs ops vals d (some (node, field)) h =
      add_field-Draftable lhs vals _ _ _ (find_field cat node field)
        (λ ce. find_field-CatalogField cat node field ce graphed.entries)
        (fail_unless-Draftable ordinal (parse_u64 vals 0).0 _ _
          (fail_when_none-Draftable ordinal (parse_op ops) _ _ h))

  read_pred-Draftable :
      (lhs ops vals : List ℕ) (d : Draft)
      → Draftable ordinal d
      → Draftable ordinal (read_pred cat lhs ops vals d)
  unfolding read_pred
  read_pred-Draftable lhs ops vals d h = add_parts-Draftable lhs ops vals d (split_at 46 lhs) h

  pub read_preds-Draftable :
      (toks : List (List ℕ)) (d : Draft)
      → Draftable ordinal d
      → Draftable ordinal (read_preds cat toks d).0
  unfolding read_preds
  read_preds-Draftable [] d h = fail-Draftable ordinal RuleError.expected_predicate d
  read_preds-Draftable (a ∷ []) d h = fail-Draftable ordinal RuleError.expected_predicate d
  read_preds-Draftable (a ∷ b ∷ []) d h = fail-Draftable ordinal RuleError.expected_predicate d
  read_preds-Draftable (lhs ∷ ops ∷ vals ∷ []) d h = read_pred-Draftable lhs ops vals d h
  read_preds-Draftable (lhs ∷ ops ∷ vals ∷ t ∷ rest) d h =
      let d' = read_pred cat lhs ops vals d in
      let h' = read_pred-Draftable lhs ops vals d h in
      elim (Bool-cases (bytes_eq t (codes "&&"))) [
        | inl more ↦ rw (more, read_preds) (read_preds-Draftable rest d' h')
        | inr last ↦ rw (last, read_preds) h'
      ]

  -- What a rule has when its line is read.
  abbrev pub Finished : Draft → Type 0
  Finished d =
      d.errs ≡ []
      → (d.rule_ok ≡ true)
        × Started ordinal d.rule
        × (((d.rule).region).anchor_node_id ≡ node_id (anchor ((d.rule).region).kind))

  fail-Finished : (e : RuleError) (d : Draft) → Finished (fail e d)
  fail-Finished e d h = append-nonempty d.errs e h

  read_parser-Draftable :
      (names : List (List ℕ)) (parser : List ℕ) (d : Draft)
      → Draftable ordinal d
      → Draftable ordinal (read_parser names parser d)
  unfolding read_parser
  read_parser-Draftable names parser d h =
      fail_when_none-Draftable ordinal (find_parser names parser 0)
        (RuleError.unknown_parser parser) d h

  u16-node : (kind : RegionKind) → u16 (node_id (anchor kind)) ≡ node_id (anchor kind)
  u16-node kind = ground arith

  read_region-Finished :
      (region : List ℕ) (d : Draft) → Draftable ordinal d → Finished (read_region cat region d)
  unfolding read_region
  read_region-Finished region d h = elim (Option-cases (parse_region region)) [
    | inl bad ↦ rw (bad, read_region) (fail-Finished (RuleError.unknown_region region) d)
    | inr (kind, good) ↦
        rw (good, read_region)
          (rw (graphed.anchors kind, read_region)
            (λ clean. let (ok, started) = h clean in (ok, started, u16-node kind)))
  ]

  pub read_target-Finished :
      (names toks : List (List ℕ)) (d : Draft)
      → Draftable ordinal d
      → Finished (read_target cat names toks d)
  unfolding read_target
  read_target-Finished names [] d h = fail-Finished RuleError.expected_arrow d
  read_target-Finished names (arrow ∷ toks) d h = elim (Bool-cases (bytes_eq arrow (codes "=>"))) [
    | inr bad ↦ rw (bad, read_target) (fail-Finished RuleError.expected_arrow d)
    | inl good ↦ rw (good, read_target) (target toks)
  ]
    where
      target :
          (toks : List (List ℕ))
          → Finished (elim toks [
            | [] ↦ fail RuleError.expected_region (fail RuleError.expected_parser d)
            | parser ∷ [] ↦ fail RuleError.expected_region (read_parser names parser d)
            | parser ∷ region ∷ rest ↦
                read_label rest (read_region cat region (read_parser names parser d))
          ])
      target [] = fail-Finished RuleError.expected_region (fail RuleError.expected_parser d)
      target (parser ∷ []) = fail-Finished RuleError.expected_region (read_parser names parser d)
      target (parser ∷ region ∷ []) =
          read_region-Finished region _ (read_parser-Draftable names parser d h)
      target (parser ∷ region ∷ t ∷ rest) =
          read_region-Finished region _ (read_parser-Draftable names parser d h)

  pub read_rule-Finished :
      (names toks : List (List ℕ)) → Finished (read_rule cat names ordinal toks)
  unfolding read_rule
  read_rule-Finished names toks =
      read_target-Finished names (read_preds cat toks (new_draft ordinal)).1 _
        (read_preds-Draftable toks (new_draft ordinal) (λ clean. (refl, (tt, omega arith, refl))))
