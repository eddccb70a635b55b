-- ===== src/Dpar/Fires.antt =====
-- dpar.hpp: which rules fire on a packet, by the headers that the packet's walk visits. This is the
-- specification of the matcher: it has no arrays, and looks each header up in the list of visits.
use nanotins.Shared.{
  ℕ, ◌≡◌, refl, ap, ◌∙◌, List, [], ◌∷◌, ◌++◌, length, Option, none, some, Bool, true, false,
}
use nanotins.Shared.{ltb, ◌==◌, if◌then◌else◌, ◌>>=◌, Bool-cases, inl, inr}
use nanotins.Dag.{Node}
use nanotins.Dag.Nodes.{node_id}
use nanotins.Dag.Trace.{Visit}
use nanotins.Dpar.{Predicate, RegionSel, Rule, read_field_runtime, cmp_apply}
use nanotins.Dpar.Match.{region_bounds}

-- The offset of the last visit of the node with an id.
abbrev pub last_offset : ℕ → List Visit → Option ℕ
last_offset id [] = none
last_offset id ((n, off) ∷ vs) = elim (last_offset id vs) [
  | some later ↦ some later
  | none ↦ if node_id n == id then some off else none
]

pub last_offset-append :
    (id : ℕ) (vs : List Visit) (n : Node) (off : ℕ)
    → last_offset id (vs ++ ((n, off) ∷ []))
      ≡ (if node_id n == id then some off else last_offset id vs)
last_offset-append id [] n off = refl
last_offset-append id ((m, q) ∷ vs) n off = elim (Bool-cases (node_id n == id)) [
  | inl hit ↦ rw (last_offset-append id vs n off) (rw hit refl)
  | inr miss ↦ rw (last_offset-append id vs n off) (rw miss refl)
]

-- Whether a predicate holds: its header is visited, and its field compares as it says.
abbrev pub pred_holds : List ℕ → List Visit → Predicate → Option Bool
pred_holds pkt vs p = elim (last_offset (p.field).node_id vs) [
  | none ↦ some false
  | some off ↦ read_field_runtime pkt off p.field >>= λ v. some (cmp_apply v p.op p.operand)
]

-- All of the predicates hold.
abbrev pub all_hold : List ℕ → List Visit → List Predicate → Option Bool
all_hold pkt vs [] = some true
all_hold pkt vs (p ∷ ps) =
    pred_holds pkt vs p >>= λ b. elim b [ false ↦ some false | true ↦ all_hold pkt vs ps ]

pub pred_holds-missing :
    (pkt : List ℕ) (vs : List Visit) (p : Predicate)
    → last_offset (p.field).node_id vs ≡ none
    → pred_holds pkt vs p ≡ some false
pred_holds-missing pkt vs p e = rw (e, pred_holds) refl

pub pred_holds-visited :
    (pkt : List ℕ) (vs : List Visit) (p : Predicate) (off v : ℕ)
    → last_offset (p.field).node_id vs ≡ some off
    → read_field_runtime pkt off p.field ≡ some v
    → pred_holds pkt vs p ≡ some (cmp_apply v p.op p.operand)
pred_holds-visited pkt vs p off v e read = rw (e, pred_holds) (rw read refl)

pub all_hold-first :
    (pkt : List ℕ) (vs : List Visit) (p : Predicate) (ps : List Predicate) (b : Bool)
    → pred_holds pkt vs p ≡ some b
    → all_hold pkt vs (p ∷ ps) ≡ (elim b [ false ↦ some false | true ↦ all_hold pkt vs ps ])
all_hold-first pkt vs p ps b e =
    ap (λ o. o >>= λ b. elim b [ false ↦ some false | true ↦ all_hold pkt vs ps ]) e

-- The region behind the header that it is measured from: none when the header is not visited, or ends
-- behind the packet.
abbrev pub region_of : List ℕ → List Visit → RegionSel → Option (Option (ℕ × ℕ))
region_of pkt vs rs = elim (last_offset rs.anchor_node_id vs) [
  | none ↦ some none
  | some off ↦ region_bounds pkt rs.kind off >>= λ r.
      some (if ltb (length pkt) r.0 then none else some (r.0, if ltb r.1 r.0 then r.0 else r.1))
]

-- A rule that fires, with its region.
abbrev pub Call : Type 0
Call = Rule × ℕ × ℕ

-- A rule fires when its predicates hold and its region resolves.
abbrev pub fires : List ℕ → List Visit → Rule → Option (Option (ℕ × ℕ))
fires pkt vs rule = all_hold pkt vs rule.preds >>= λ ok. elim ok [
  | false ↦ some none
  | true ↦ region_of pkt vs rule.region
]

-- The rules that fire, in order.
abbrev pub fired : List ℕ → List Visit → List Rule → Option (List Call)
fired pkt vs [] = some []
fired pkt vs (rule ∷ rules) = fires pkt vs rule >>= λ r.
    fired pkt vs rules >>= λ cs. some (elim r [ none ↦ cs | some (b, e) ↦ (rule, b, e) ∷ cs ])

pub fires-held :
    (pkt : List ℕ) (vs : List Visit) (rule : Rule) (b : Bool)
    → all_hold pkt vs rule.preds ≡ some b
    → fires pkt vs rule ≡ (elim b [ false ↦ some none | true ↦ region_of pkt vs rule.region ])
fires-held pkt vs rule b e =
    ap (λ o. o >>= λ ok. elim ok [ false ↦ some none | true ↦ region_of pkt vs rule.region ]) e

pub fired-first :
    (pkt : List ℕ) (vs : List Visit) (rule : Rule) (rules : List Rule) (r : Option (ℕ × ℕ))
    (calls : List Call)
    → fires pkt vs rule ≡ some r
    → fired pkt vs rules ≡ some calls
    → fired pkt vs (rule ∷ rules)
      ≡ some (elim r [ none ↦ calls | some (b, e) ↦ (rule, b, e) ∷ calls ])
fired-first pkt vs rule rules r calls e rest =
    ap
      (λ o. o >>= λ r.
        fired pkt vs rules >>= λ cs. some (elim r [ none ↦ cs | some (b, e) ↦ (rule, b, e) ∷ cs ]))
      e
    ∙ ap (λ o. o >>= λ cs. some (elim r [ none ↦ cs | some (b, e) ↦ (rule, b, e) ∷ cs ])) rest
