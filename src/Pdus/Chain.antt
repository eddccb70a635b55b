-- ===== src/Pdus/Chain.antt =====
-- protocol_decode.hpp: the walk replays the decode steps by layer.
use nanotins.Shared.{ℕ, zero, suc, ◌+◌, ◌≡◌, refl, arith, List, Option, none, some, true, false}
use nanotins.Shared.{
  if◌then◌else◌, sym, ◌∙◌, >>=-assoc, leb, ltb, ◌>>=◌, ◌==◌, Bool-cases, Option-cases, inl, inr,
  >>=-same,
}
use nanotins.Pdus.{
  ethernet, ipv4, ipv6, tcp, udp, ip_proto_tcp, ip_proto_udp, ethertype_ipv4, ethertype_ipv6, Bytes,
  vlan, subspan, overlay, is_tagged, word_host, size_of, link_type_ethernet,
}
use nanotins.Pdus.Layers.{
  DecodedPdus, LayerResult, add_pdu, vlan_tags, decode_l2, decode_l3, decode_l4,
}
use nanotins.Pdus.Walk.{
  ipv6_l3, L3, walk_l3, walk_l4, WalkResult, no_l4, vlan_walk, walk_l2, walk_after_l2,
  walk_after_l3, walk_packet,
}

module _ (mem : List ℕ) (pid : ℕ) where
  -- The steps one after the other: each starts where the one before it left off, and the first that
  -- returns false ends the decode.
  abbrev pub layers_l4 :
      (off : ℕ) → DecodedPdus × Option (ℕ × ℕ) → Option (DecodedPdus × WalkResult)
  layers_l4 off (out, none) = some (out, no_l4)
  layers_l4 off (out, some (consumed, ports)) =
      some (out, record { l4_payload_offset = off + consumed; l4_ports = ports; reached_l4 = true })

  abbrev pub layers_l3 : (off : ℕ) → Bytes → LayerResult → Option (DecodedPdus × WalkResult)
  layers_l3 off bytes (out, none) = some (out, no_l4)
  layers_l3 off bytes (out, some (consumed, ip_proto)) =
      decode_l4 mem pid ip_proto (subspan bytes consumed) out >>= layers_l4 (off + consumed)

  abbrev pub layers_l2 : Bytes → LayerResult → Option (DecodedPdus × WalkResult)
  layers_l2 bytes (out, none) = some (out, no_l4)
  layers_l2 bytes (out, some (consumed, ethertype)) =
      decode_l3 mem pid ethertype (subspan bytes consumed) out
      >>= layers_l3 consumed (subspan bytes consumed)

  pub decode_layers : (link_type : ℕ) → Bytes → DecodedPdus → Option (DecodedPdus × WalkResult)
  decode_layers link_type bytes out = decode_l2 mem pid link_type bytes out >>= layers_l2 bytes

  -- The two loops over VLAN tags, up to the order of the results.
  abbrev swapped : DecodedPdus × Option (ℕ × ℕ) → DecodedPdus × Option (ℕ × ℕ)
  swapped (out, none) = (out, none)
  swapped (out, some (a, b)) = (out, some (b, a))

  vlan_walk-tags :
      (fuel : ℕ) (pkt : Bytes) (ethertype off : ℕ) (out : DecodedPdus)
      → vlan_tags mem pid fuel pkt ethertype off out
        ≡ (vlan_walk mem (add_pdu pid) fuel pkt ethertype off out >>= λ t. some (swapped t))
  unfolding vlan_walk vlan_tags
  vlan_walk-tags zero pkt ethertype off out = refl
  vlan_walk-tags (suc fuel) pkt ethertype off out = elim (Bool-cases (is_tagged ethertype)) [
    | inr e ↦ rw (e, vlan_walk, vlan_tags) refl
    | inl e ↦ elim (Option-cases (overlay mem pkt off vlan)) [
      | inl f ↦ rw (e, vlan_walk, vlan_tags) (rw f refl)
      | inr (none, f) ↦ rw (e, vlan_walk, vlan_tags) (rw f refl)
      | inr (some tag, f) ↦
          rw (e, vlan_walk, vlan_tags)
            (rw f (
              >>=-same (add_pdu pid out vlan tag) (λ out'.
                vlan_walk-tags fuel pkt (word_host vlan "inner_ethertype" tag) (off + size_of vlan)
                  out')
              ∙ sym (>>=-assoc (add_pdu pid out vlan tag) _ _)))
    ]
  ]

  -- A step behind the end of its bytes, and one without a discriminator.
  decode_l4-behind :
      (ip_proto : ℕ) (bytes : Bytes) (k : ℕ) (out : DecodedPdus)
      → ltb bytes.len k ≡ true
      → decode_l4 mem pid ip_proto (subspan bytes k) out ≡ some (out, none)
  unfolding decode_l4 subspan overlay
  decode_l4-behind ip_proto bytes k out h =
      let behind : leb k bytes.len ≡ false = ground arith in
      elim (Bool-cases (ip_proto == ip_proto_tcp)) [
        | inl e ↦ rw (e, decode_l4) (rw behind refl)
        | inr e ↦ elim (Bool-cases (ip_proto == ip_proto_udp)) [
          | inl e' ↦ rw (e, decode_l4) (rw (e', decode_l4) (rw behind refl))
          | inr e' ↦ rw (e, decode_l4) (rw (e', decode_l4) refl)
        ]
      ]

  decode_l4-none :
      (bytes : Bytes) (out : DecodedPdus) → decode_l4 mem pid 0 bytes out ≡ some (out, none)
  unfolding decode_l4
  decode_l4-none bytes out = refl

  decode_l3-behind :
      (ethertype : ℕ) (bytes : Bytes) (k : ℕ) (out : DecodedPdus)
      → ltb bytes.len k ≡ true
      → decode_l3 mem pid ethertype (subspan bytes k) out ≡ some (out, none)
  unfolding decode_l3 subspan overlay
  decode_l3-behind ethertype bytes k out h =
      let behind : leb k bytes.len ≡ false = ground arith in
      elim (Bool-cases (ethertype == ethertype_ipv4)) [
        | inl e ↦ rw (e, decode_l3) (rw behind refl)
        | inr e ↦ elim (Bool-cases (ethertype == ethertype_ipv6)) [
          | inl e' ↦ rw (e, decode_l3) (rw (e', decode_l3) (rw behind refl))
          | inr e' ↦ rw (e, decode_l3) (rw (e', decode_l3) refl)
        ]
      ]

  decode_l2-other :
      (link_type : ℕ) (bytes : Bytes) (out : DecodedPdus)
      → (link_type == link_type_ethernet) ≡ false
      → decode_l2 mem pid link_type bytes out ≡ some (out, none)
  unfolding decode_l2
  decode_l2-other link_type bytes out e = rw (e, decode_l2) refl

  walk_l4-layers :
      (at ip_proto : ℕ) (bytes : Bytes) (out : DecodedPdus)
      → walk_l4 mem (add_pdu pid) at ip_proto bytes out
        ≡ (decode_l4 mem pid ip_proto bytes out >>= layers_l4 at)
  unfolding walk_l4 decode_l4
  walk_l4-layers at ip_proto bytes out = elim (Bool-cases (ip_proto == ip_proto_tcp)) [
    | inl e ↦ elim (Option-cases (overlay mem bytes 0 tcp)) [
      | inl f ↦ rw (e, walk_l4, decode_l4) (rw f refl)
      | inr (none, f) ↦ rw (e, walk_l4, decode_l4) (rw f refl)
      | inr (some seg, f) ↦
          rw (e, walk_l4, decode_l4) (rw f (sym (>>=-assoc (add_pdu pid out tcp seg) _ _)))
    ]
    | inr e ↦ elim (Bool-cases (ip_proto == ip_proto_udp)) [
      | inr e' ↦ rw (e, walk_l4, decode_l4) (rw (e', walk_l4, decode_l4) refl)
      | inl e' ↦ elim (Option-cases (overlay mem bytes 0 udp)) [
        | inl f ↦ rw (e, walk_l4, decode_l4) (rw (e', walk_l4, decode_l4) (rw f refl))
        | inr (none, f) ↦ rw (e, walk_l4, decode_l4) (rw (e', walk_l4, decode_l4) (rw f refl))
        | inr (some seg, f) ↦
            rw (e, walk_l4, decode_l4)
              (rw (e', walk_l4, decode_l4) (rw f (sym (>>=-assoc (add_pdu pid out udp seg) _ _))))
      ]
    ]
  ]

  after_l3-layers :
      (off : ℕ) (bytes : Bytes) (h : L3) (out : DecodedPdus)
      → walk_after_l3 mem (add_pdu pid) off bytes (some h) out
        ≡ layers_l3 off bytes (out, some (h.l3, if h.has_l4 then h.ip_proto else 0))
  unfolding walk_after_l3
  after_l3-layers off bytes h out = elim (Bool-cases (ltb bytes.len h.l3)) [
    | inl e ↦
        rw (e, walk_after_l3)
          (sym (rw (decode_l4-behind (if h.has_l4 then h.ip_proto else 0) bytes h.l3 out e) refl))
    | inr e ↦ elim (Bool-cases h.has_l4) [
      | inl e' ↦
          rw (e, walk_after_l3)
            (rw (e', walk_after_l3)
              (walk_l4-layers (off + h.l3) h.ip_proto (subspan bytes h.l3) out))
      | inr e' ↦
          rw (e, walk_after_l3)
            (rw (e', walk_after_l3) (sym (rw (decode_l4-none (subspan bytes h.l3) out) refl)))
    ]
  ]

  walk_l3-layers :
      (off ethertype : ℕ) (bytes : Bytes) (out : DecodedPdus)
      → (walk_l3 mem (add_pdu pid) ethertype bytes out >>= λ t.
          walk_after_l3 mem (add_pdu pid) off bytes t.1 t.0)
        ≡ (decode_l3 mem pid ethertype bytes out >>= layers_l3 off bytes)
  unfolding walk_l3 decode_l3 walk_after_l3
  walk_l3-layers off ethertype bytes out = elim (Bool-cases (ethertype == ethertype_ipv4)) [
    | inl e ↦ elim (Option-cases (overlay mem bytes 0 ipv4)) [
      | inl f ↦ rw (e, walk_l3, decode_l3) (rw f refl)
      | inr (none, f) ↦ rw (e, walk_l3, decode_l3) (rw f refl)
      | inr (some ip, f) ↦
          rw (e, walk_l3, decode_l3)
            (rw f (
              >>=-assoc (add_pdu pid out ipv4 ip) _ _
              ∙ >>=-same (add_pdu pid out ipv4 ip) (λ out'. after_l3-layers off bytes _ out')
              ∙ sym (>>=-assoc (add_pdu pid out ipv4 ip) _ _)))
    ]
    | inr e ↦ elim (Bool-cases (ethertype == ethertype_ipv6)) [
      | inr e' ↦ rw (e, walk_l3, decode_l3) (rw (e', walk_l3, decode_l3) refl)
      | inl e' ↦ elim (Option-cases (overlay mem bytes 0 ipv6)) [
        | inl f ↦ rw (e, walk_l3, decode_l3) (rw (e', walk_l3, decode_l3) (rw f refl))
        | inr (none, f) ↦ rw (e, walk_l3, decode_l3) (rw (e', walk_l3, decode_l3) (rw f refl))
        | inr (some ip, f) ↦
            rw (e, walk_l3, decode_l3)
              (rw e' (
                rw f (
                  >>=-assoc (add_pdu pid out ipv6 ip) _ _
                  ∙ >>=-same (add_pdu pid out ipv6 ip)
                      (λ out'. after_l3-layers off bytes (ipv6_l3 ip) out')
                  ∙ sym (>>=-assoc (add_pdu pid out ipv6 ip) _ _))))
      ]
    ]
  ]

  after_l2-layers :
      (bytes : Bytes) (t : DecodedPdus × Option (ℕ × ℕ))
      → walk_after_l2 mem (add_pdu pid) bytes t.1 t.0 ≡ layers_l2 bytes (swapped t)
  unfolding walk_after_l2
  after_l2-layers bytes (out, none) = refl
  after_l2-layers bytes (out, some (ethertype, off)) = elim (Bool-cases (ltb bytes.len off)) [
    | inr e ↦ rw (e, walk_after_l2) (walk_l3-layers off ethertype (subspan bytes off) out)
    | inl e ↦ rw (e, walk_after_l2) (sym (rw (decode_l3-behind ethertype bytes off out e) refl))
  ]

  walk_l2-layers :
      (bytes : Bytes) (out : DecodedPdus)
      → decode_l2 mem pid link_type_ethernet bytes out
        ≡ (walk_l2 mem (add_pdu pid) bytes out >>= λ t. some (swapped t))
  unfolding walk_l2 decode_l2
  walk_l2-layers bytes out = elim (Option-cases (overlay mem bytes 0 ethernet)) [
    | inl f ↦ rw f refl
    | inr (none, f) ↦ rw f refl
    | inr (some eth, f) ↦ rw f (
        >>=-same (add_pdu pid out ethernet eth) (λ out'. vlan_walk-tags _ bytes _ _ out')
        ∙ sym (>>=-assoc (add_pdu pid out ethernet eth) _ _))
  ]

-- The shared walk with the appending visitor is the decode by layers: on any memory, packet and link
-- type, decode_packet's walk appends the same rows as decode_l2, decode_l3 and decode_l4 called one
-- after the other, each on the bytes behind what the step before it consumed, until one returns
-- false; and its result is the sum of the consumed lengths and the packed ports when all three
-- succeed, and else no L4.
pub walk_packet-decode_layers :
    (mem : List ℕ) (pid link_type : ℕ) (pkt : Bytes) (out : DecodedPdus)
    → walk_packet mem (add_pdu pid) link_type pkt out ≡ decode_layers mem pid link_type pkt out
unfolding walk_packet decode_layers
walk_packet-decode_layers mem pid link_type pkt out =
    elim (Bool-cases (link_type == link_type_ethernet)) [
      | inr e ↦ rw (e, walk_packet) (sym (rw (decode_l2-other mem pid link_type pkt out e) refl))
      | inl e ↦
          let same : link_type ≡ link_type_ethernet = ground arith in
          rw (e, walk_packet)
            (>>=-same (walk_l2 mem (add_pdu pid) pkt out) (λ t. after_l2-layers mem pid pkt t)
              ∙ sym (
                  rw same (
                    rw (walk_l2-layers mem pid pkt out)
                      (>>=-assoc (walk_l2 mem (add_pdu pid) pkt out) _ _))))
    ]
