-- ===== src/Dpar/Safety.antt =====
-- dpar.hpp: with rules whose fields come from the catalog, the matcher never reads outside the packet.
use nanotins.Shared.{ℕ, ◌+◌, ◌≤◌, ◌≡◌, refl, ◌∙◌, arith, List, [], ◌∷◌, length, All}
use nanotins.Shared.{Option, none, some, Bool, true, false, ltb, if◌then◌else◌}
use nanotins.Shared.{Bool-cases, inl, inr, All-get_elem?}
use mathlib.Core.Option.{some-injective}
use nanotins.WireSpec.{
  big_loop, little_loop, Field, named_field, named_bit_field, named_bytes_field, end_offset, extent,
  spec_size,
}
use nanotins.WireSpec.Bounds.{
  IsRead, IsRead-map, big_loop-IsRead, little_loop-IsRead, end_offset-le-extent, view-IsRead,
}
use nanotins.WireSpec.Protocols.{tcp_spec}
use nanotins.WireSpec.Protocols.Someip.{someip_spec}
use nanotins.Shared.{get_elem?}
use nanotins.Dag.{Node, eth, vlan, udp, tcp, someip, spec}
use nanotins.Dag.Nodes.{node_id}
use nanotins.Dpar.{FieldRef, Predicate, RegionKind, RegionSel, read_field_runtime, cmp_apply}
use nanotins.Dpar.Catalog.{field_to_ref, scalar_ref, bit_ref}
use nanotins.Dpar.Reader.{field-fits}
use nanotins.Dpar.Match.{tcp_header, Seen, resolve_region, region_bounds, preds_hold}
use nanotins.Dag.Trace.{Visit}
use nanotins.Dpar.Fires.{
  last_offset, all_hold, all_hold-first, pred_holds-missing, pred_holds-visited, region_of,
}
use nanotins.Dpar.Seen.{SeenOk}

-- The reference of a field of a node, as the catalog holds it.
pub record CatalogField (ref : FieldRef) : Type 0 where
  pub node : Node
  pub field : Field
  pub position : ℕ
  pub listed : get_elem? (spec node) position ≡ some field
  pub made : field_to_ref (node_id node) field ≡ some ref

-- A reference keeps its node, and the end of its field.
ref_place :
    (n : Node) (f : Field) (i : ℕ) (ref : FieldRef)
    → get_elem? (spec n) i ≡ some f
    → field_to_ref (node_id n) f ≡ some ref
    → (ref.node_id ≡ node_id n) × (ref.offset + ref.byte_width ≡ end_offset f)
ref_place n (named_bytes_field t o k) i ref at made = absurd cc
ref_place n (named_field t o k e) i ref at made =
    let fit = field-fits n i (named_field t o k e) at in
    rw⁻¹ (some-injective (scalar_ref (node_id n) o k e) ref made) (refl, ground arith)
ref_place n (named_bit_field t o k b w e) i ref at made =
    let fit = field-fits n i (named_bit_field t o k b w e) at in
    rw⁻¹ (some-injective (bit_ref (node_id n) o k b w e) ref made) (refl, ground arith)

read_field_runtime-IsRead :
    (pkt : List ℕ) (base : ℕ) (f : FieldRef)
    → base + (f.offset + f.byte_width) ≤ length pkt
    → IsRead (read_field_runtime pkt base f)
unfolding read_field_runtime
read_field_runtime-IsRead pkt base f h = IsRead-map _ _ (word f.big_endian)
  where
    word :
        (big : Bool)
        → IsRead (
            if big
            then big_loop pkt (base + f.offset) f.byte_width 0
            else little_loop pkt (base + f.offset) f.byte_width 0)
    word true = big_loop-IsRead pkt (base + f.offset) f.byte_width 0 (omega arith)
    word false = little_loop-IsRead pkt (base + f.offset) f.byte_width 0 (omega arith)

-- The node that a region is measured from.
abbrev pub anchor : RegionKind → Node
anchor RegionKind.eth_payload = eth
anchor RegionKind.vlan_payload = vlan
anchor RegionKind.udp_payload = udp
anchor RegionKind.tcp_payload = tcp
anchor RegionKind.someip_payload = someip

region_bounds-inside :
    (pkt : List ℕ) (kind : RegionKind) (aoff : ℕ)
    → aoff + spec_size (spec (anchor kind)) ≤ length pkt
    → (r : ℕ × ℕ) × (region_bounds pkt kind aoff ≡ some r) × (r.1 ≤ length pkt)
unfolding region_bounds
region_bounds-inside pkt RegionKind.eth_payload aoff h =
    ((aoff + 14, length pkt), refl, omega arith)
region_bounds-inside pkt RegionKind.vlan_payload aoff h =
    ((aoff + 4, length pkt), refl, omega arith)
region_bounds-inside pkt RegionKind.udp_payload aoff h = ((aoff + 8, length pkt), refl, omega arith)
region_bounds-inside pkt RegionKind.tcp_payload aoff h =
    let (d, e) = view-IsRead pkt aoff tcp_spec "data_offset" _ refl refl h in
    ((aoff + tcp_header d, length pkt), rw e refl, omega arith)
region_bounds-inside pkt RegionKind.someip_payload aoff h =
    let (n, e) = view-IsRead pkt aoff someip_spec "length" _ refl refl h in
    (
      (aoff + 16, if ltb (aoff + 8 + n) (length pkt) then aoff + 8 + n else length pkt),
      rw e refl,
      ground arith,
    )

-- A region inside the packet.
abbrev pub InPacket : List ℕ → Option (ℕ × ℕ) → Type 0
InPacket pkt none = Unit
InPacket pkt (some (b, e)) = (b ≤ e) × (e ≤ length pkt)

module _ (pkt : List ℕ) (vs : List Visit) (seen : Seen) (ok : SeenOk pkt vs seen) where
  -- Two chains of tests that agree: the matcher's, and the specification's.
  abbrev Same : Option Bool → Option Bool → Type 0
  Same run holds = (b : Bool) × (run ≡ some b) × (holds ≡ some b)

  branch :
      (run holds : Option Bool)
      → Same run holds
      → (b : Bool)
      → Same
          (elim b [ false ↦ some false | true ↦ run ])
          (elim b [ false ↦ some false | true ↦ holds ])
  branch run holds h true = h
  branch run holds h false = (false, refl, refl)

  -- The tests of a rule's predicates read inside the packet, and are those of the specification.
  pub preds_hold-all_hold :
      (ps : List Predicate)
      → All (λ p. CatalogField p.field) ps
      → (b : Bool) × (preds_hold pkt seen ps ≡ some b) × (all_hold pkt vs ps ≡ some b)
  unfolding preds_hold
  preds_hold-all_hold [] h = (true, refl, refl)
  preds_hold-all_hold (p ∷ ps) (h, hs) =
      let (same, place) = ref_place h.node h.field h.position p.field h.listed h.made in
      let o = ok h.node in
      let there : get_elem? seen.present (p.field).node_id ≡ some o.there = rw same o.at_present in
      let placed : get_elem? seen.off_by_node (p.field).node_id ≡ some o.off = rw same o.at_off in
      let last : last_offset (p.field).node_id vs ≡ (if o.there then some o.off else none) =
        rw same o.last in
      elim (Bool-cases o.there) [
        | inr e ↦ (
          false,
          rw there (rw e refl),
          all_hold-first pkt vs p ps false (pred_holds-missing pkt vs p (last ∙ rw e refl)),
        )
        | inl e ↦
            let fields =
              All-get_elem? (λ f. end_offset f ≤ extent 0 (spec h.node)) (spec h.node) h.position
                h.field (end_offset-le-extent 0 (spec h.node)) h.listed in
            let (v, read) =
              read_field_runtime-IsRead pkt o.off p.field (omega (arith, o.inside e)) in
            let (b, run, holds) =
              branch (preds_hold pkt seen ps) (all_hold pkt vs ps) (preds_hold-all_hold ps hs)
                (cmp_apply v p.op p.operand) in
            (
              b,
              rw there (rw e (rw placed (rw read run))),
              all_hold-first pkt vs p ps (cmp_apply v p.op p.operand)
                    (pred_holds-visited pkt vs p o.off v (last ∙ rw e refl) read)
                  ∙ holds,
            )
      ]

  pub resolve_region-InPacket :
      (rs : RegionSel)
      → rs.anchor_node_id ≡ node_id (anchor rs.kind)
      → (r : Option (ℕ × ℕ)) × (resolve_region pkt rs seen ≡ some r)
        × (region_of pkt vs rs ≡ some r)
        × InPacket pkt r
  unfolding resolve_region
  resolve_region-InPacket rs same =
      let o = ok (anchor rs.kind) in
      let there : get_elem? seen.present rs.anchor_node_id ≡ some o.there = rw same o.at_present in
      let placed : get_elem? seen.off_by_node rs.anchor_node_id ≡ some o.off = rw same o.at_off in
      let last : last_offset rs.anchor_node_id vs ≡ (if o.there then some o.off else none) =
        rw same o.last in
      elim (Bool-cases o.there) [
        | inr e ↦ (none, rw there (rw e refl), rw (last, region_of) (rw e refl), tt)
        | inl e ↦
            let ((b, l), bounds, short) = region_bounds-inside pkt rs.kind o.off (o.inside e) in
            elim (Bool-cases (ltb (length pkt) b)) [
              | inl far ↦ (
                none,
                rw there (rw e (rw placed (rw bounds (rw far refl)))),
                rw (last, region_of) (rw e (rw bounds (rw far refl))),
                tt,
              )
              | inr near ↦ (
                some (b, if ltb l b then b else l),
                rw there (rw e (rw placed (rw bounds (rw near refl)))),
                rw (last, region_of) (rw e (rw bounds (rw near refl))),
                (ground arith, ground arith),
              )
            ]
      ]
