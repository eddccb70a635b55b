-- ===== src/Pdus/Walk.antt =====
-- nanotins/include/nanotins/protocol_decode.hpp: walk_packet with any visitor, and the passes over
-- one packet that are walks: decode_packet, count_packet and scatter_packet. A part of the walk that
-- returns early gives `none` beside the visitor's state.
use nanotins.Shared.{ℕ, zero, suc, ◌+◌, List, Option, none, some, Bool, true, false}
use nanotins.Shared.{ltb, ◌>>=◌, ◌==◌, ◌||◌, not, bit_and}
use nanotins.Bulk.{Counts, bump, scatter_row}
use nanotins.Pdus.{
  Pdu, ethernet, vlan, ipv4, ipv6, tcp, udp, Bytes, subspan, overlay, size_of, word_host, is_tagged,
  ethertype_ipv4, ethertype_ipv6, ip_proto_tcp, ip_proto_udp, link_type_ethernet,
}
use nanotins.Pdus.Columns.{pdu_key}
use nanotins.Pdus.Layers.{DecodedPdus, add_pdu, ipv4_length, tcp_length, pack_ports}

pub record WalkResult : Type 0 where
  pub l4_payload_offset : ℕ
  pub l4_ports : ℕ
  pub reached_l4 : Bool

abbrev pub no_l4 : WalkResult
no_l4 = record { l4_payload_offset = 0; l4_ports = 0; reached_l4 = false }

-- What the L3 part of the walk leaves for the L4 part.
pub record L3 : Type 0 where
  pub l3 : ℕ
  pub ip_proto : ℕ
  pub has_l4 : Bool

abbrev pub ipv4_l3 : List ℕ → L3
ipv4_l3 ip = record {
  l3 = ipv4_length ip;
  ip_proto = word_host ipv4 "protocol" ip;
  has_l4 = bit_and (word_host ipv4 "flags_frag" ip) 0x1FFF == 0;
}

abbrev pub ipv6_l3 : List ℕ → L3
ipv6_l3 ip = record { l3 = size_of ipv6; ip_proto = word_host ipv6 "next_header" ip; has_l4 = true }

-- The result behind an L4 header at an offset.
abbrev pub tcp_result : ℕ → List ℕ → WalkResult
tcp_result at seg = record {
  l4_payload_offset = at + tcp_length seg;
  l4_ports = pack_ports (word_host tcp "src_port" seg) (word_host tcp "dst_port" seg);
  reached_l4 = true;
}

abbrev pub udp_result : ℕ → List ℕ → WalkResult
udp_result at seg = record {
  l4_payload_offset = at + size_of udp;
  l4_ports = pack_ports (word_host udp "src_port" seg) (word_host udp "dst_port" seg);
  reached_l4 = true;
}

module _ {S : Type 0} (mem : List ℕ) (visit : S → Pdu → List ℕ → Option S) where
  -- The loop over VLAN tags. Each round takes 4 bytes.
  unfoldable pub vlan_walk : ℕ → Bytes → (ethertype off : ℕ) → S → Option (S × Option (ℕ × ℕ))
  vlan_walk zero pkt ethertype off s = none
  vlan_walk (suc fuel) pkt ethertype off s = elim (is_tagged ethertype) [
    | false ↦ some (s, some (ethertype, off))
    | true ↦ overlay mem pkt off vlan >>= λ r. elim r [
      | none ↦ some (s, none)
      | some tag ↦ visit s vlan tag >>= λ s'.
          vlan_walk fuel pkt (word_host vlan "inner_ethertype" tag) (off + size_of vlan) s'
    ]
  ]

  -- The EtherType behind the tags, and the length of L2.
  unfoldable pub walk_l2 : Bytes → S → Option (S × Option (ℕ × ℕ))
  walk_l2 pkt s = overlay mem pkt 0 ethernet >>= λ r. elim r [
    | none ↦ some (s, none)
    | some eth ↦ visit s ethernet eth >>= λ s'.
        vlan_walk (suc pkt.len) pkt (word_host ethernet "ethertype" eth) (size_of ethernet) s'
  ]

  unfoldable pub walk_l3 : (ethertype : ℕ) → Bytes → S → Option (S × Option L3)
  walk_l3 ethertype after_l2 s = elim (ethertype == ethertype_ipv4) [
    | true ↦ overlay mem after_l2 0 ipv4 >>= λ r. elim r [
      | none ↦ some (s, none)
      | some ip ↦ visit s ipv4 ip >>= λ s'. some (s', some (ipv4_l3 ip))
    ]
    | false ↦ elim (ethertype == ethertype_ipv6) [
      | true ↦ overlay mem after_l2 0 ipv6 >>= λ r. elim r [
        | none ↦ some (s, none)
        | some ip ↦ visit s ipv6 ip >>= λ s'. some (s', some (ipv6_l3 ip))
      ]
      | false ↦ some (s, none)
    ]
  ]

  unfoldable pub walk_l4 : (at ip_proto : ℕ) → Bytes → S → Option (S × WalkResult)
  walk_l4 at ip_proto after_l3 s = elim (ip_proto == ip_proto_tcp) [
    | true ↦ overlay mem after_l3 0 tcp >>= λ r. elim r [
      | none ↦ some (s, no_l4)
      | some seg ↦ visit s tcp seg >>= λ s'. some (s', tcp_result at seg)
    ]
    | false ↦ elim (ip_proto == ip_proto_udp) [
      | true ↦ overlay mem after_l3 0 udp >>= λ r. elim r [
        | none ↦ some (s, no_l4)
        | some seg ↦ visit s udp seg >>= λ s'. some (s', udp_result at seg)
      ]
      | false ↦ some (s, no_l4)
    ]
  ]

  -- The walk behind L3, and behind L2.
  unfoldable pub walk_after_l3 : (off : ℕ) → Bytes → Option L3 → S → Option (S × WalkResult)
  walk_after_l3 off after_l2 none s = some (s, no_l4)
  walk_after_l3 off after_l2 (some h) s = elim (ltb after_l2.len h.l3 || not h.has_l4) [
    | true ↦ some (s, no_l4)
    | false ↦ walk_l4 (off + h.l3) h.ip_proto (subspan after_l2 h.l3) s
  ]

  unfoldable pub walk_after_l2 : Bytes → Option (ℕ × ℕ) → S → Option (S × WalkResult)
  walk_after_l2 pkt none s = some (s, no_l4)
  walk_after_l2 pkt (some (ethertype, off)) s = elim (ltb pkt.len off) [
    | true ↦ some (s, no_l4)
    | false ↦
        walk_l3 ethertype (subspan pkt off) s >>= λ t. walk_after_l3 off (subspan pkt off) t.1 t.0
  ]

  unfoldable pub walk_packet : (link_type : ℕ) → Bytes → S → Option (S × WalkResult)
  walk_packet link_type pkt s = elim (link_type == link_type_ethernet) [
    | false ↦ some (s, no_l4)
    | true ↦ walk_l2 pkt s >>= λ t. walk_after_l2 pkt t.1 t.0
  ]

module _ (mem : List ℕ) where
  unfoldable pub decode_packet :
      (packet_id link_type : ℕ) → Bytes → DecodedPdus → Option DecodedPdus
  decode_packet packet_id link_type pkt out =
      walk_packet mem (add_pdu packet_id) link_type pkt out >>= λ t. some t.0

  -- PduCounts of uint32_t, all 0 at first.
  abbrev pub count_pdu : Counts Pdu → Pdu → List ℕ → Option (Counts Pdu)
  count_pdu c p raw = some (bump c p)

  unfoldable pub count_packet : (link_type : ℕ) → Bytes → Option (Counts Pdu)
  count_packet link_type pkt = walk_packet mem count_pdu link_type pkt (λ p. 0) >>= λ t. some t.0

  abbrev pub scatter_pdu :
      ℕ → Counts Pdu × DecodedPdus → Pdu → List ℕ → Option (Counts Pdu × DecodedPdus)
  scatter_pdu packet_id s p raw = scatter_row s p (packet_id, raw)

  unfoldable pub scatter_packet :
      (packet_id link_type : ℕ)
      → Bytes
      → Counts Pdu
      → DecodedPdus
      → Option (DecodedPdus × WalkResult)
  scatter_packet packet_id link_type pkt base sink =
      walk_packet mem (scatter_pdu packet_id) link_type pkt (base, sink) >>= λ t.
      some ((t.0).1, t.1)
