-- ===== src/Pdus/Layers.antt =====
-- nanotins/include/nanotins/protocol_decode.hpp: the columns, and the decode steps by layer. A step
-- returns false as `none`, its consumed length and discriminator then being 0, and otherwise both.
use nanotins.Shared.{ℕ, zero, suc, ◌+◌, ◌*◌, List, Option, none, some, true, false}
use nanotins.Shared.{leb, if◌then◌else◌, ◌>>=◌, ◌==◌, bit_and, bit_or}
use nanotins.Shared.Bits.{shl, shr}
use nanotins.Bulk.{Tables, append_row}
use nanotins.Pdus.{
  Pdu, ethernet, vlan, ipv4, ipv6, tcp, udp, Bytes, overlay, size_of, word_host, is_tagged,
  ethertype_ipv4, ethertype_ipv6, ip_proto_tcp, ip_proto_udp, link_type_ethernet,
}
use nanotins.Pdus.Columns.{pdu_key}

-- A row of a column: the packet id, and the struct.
abbrev pub PduRow : Type 0
PduRow = ℕ × List ℕ

abbrev pub DecodedPdus : Type 0
DecodedPdus = Tables Pdu PduRow

-- `add` of the column of `p`.
abbrev pub add_pdu : ℕ → DecodedPdus → Pdu → List ℕ → Option DecodedPdus
add_pdu pid out p raw = append_row out p (pid, raw)

abbrev pub LayerResult : Type 0
LayerResult = DecodedPdus × Option (ℕ × ℕ)

-- The length of an IPv4 header with its options.
abbrev pub ipv4_length : List ℕ → ℕ
ipv4_length ip =
    let hdr = bit_and (word_host ipv4 "ver_ihl" ip) 0x0F * 4 in
    if leb (size_of ipv4) hdr then hdr else size_of ipv4

abbrev pub tcp_length : List ℕ → ℕ
tcp_length seg =
    let hdr = bit_and (shr (word_host tcp "off_flags" seg) 12) 0x0F * 4 in
    if leb (size_of tcp) hdr then hdr else size_of tcp

unfoldable pub pack_ports : (src_port dst_port : ℕ) → ℕ
pack_ports src_port dst_port = bit_or (shl src_port 16) dst_port

module _ (mem : List ℕ) (pid : ℕ) where
  -- The loop over VLAN tags. Each round takes 4 bytes.
  unfoldable pub vlan_tags : ℕ → Bytes → (ethertype off : ℕ) → DecodedPdus → Option LayerResult
  vlan_tags zero bytes ethertype off out = none
  vlan_tags (suc fuel) bytes ethertype off out = elim (is_tagged ethertype) [
    | false ↦ some (out, some (off, ethertype))
    | true ↦ overlay mem bytes off vlan >>= λ r. elim r [
      | none ↦ some (out, none)
      | some tag ↦ add_pdu pid out vlan tag >>= λ out'.
          vlan_tags fuel bytes (word_host vlan "inner_ethertype" tag) (off + size_of vlan) out'
    ]
  ]

  unfoldable pub decode_l2 : (link_type : ℕ) → Bytes → DecodedPdus → Option LayerResult
  decode_l2 link_type bytes out = elim (link_type == link_type_ethernet) [
    | false ↦ some (out, none)
    | true ↦ overlay mem bytes 0 ethernet >>= λ r. elim r [
      | none ↦ some (out, none)
      | some eth ↦ add_pdu pid out ethernet eth >>= λ out'.
          vlan_tags (suc bytes.len) bytes (word_host ethernet "ethertype" eth) (size_of ethernet)
            out'
    ]
  ]

  unfoldable pub decode_l3 : (ethertype : ℕ) → Bytes → DecodedPdus → Option LayerResult
  decode_l3 ethertype bytes out = elim (ethertype == ethertype_ipv4) [
    | true ↦ overlay mem bytes 0 ipv4 >>= λ r. elim r [
      | none ↦ some (out, none)
      | some ip ↦ add_pdu pid out ipv4 ip >>= λ out'. some (
        out',
        some (
          ipv4_length ip,
          if bit_and (word_host ipv4 "flags_frag" ip) 0x1FFF == 0
              then word_host ipv4 "protocol" ip
              else 0,
        ),
      )
    ]
    | false ↦ elim (ethertype == ethertype_ipv6) [
      | true ↦ overlay mem bytes 0 ipv6 >>= λ r. elim r [
        | none ↦ some (out, none)
        | some ip ↦ add_pdu pid out ipv6 ip >>= λ out'.
            some (out', some (size_of ipv6, word_host ipv6 "next_header" ip))
      ]
      | false ↦ some (out, none)
    ]
  ]

  unfoldable pub decode_l4 : (ip_proto : ℕ) → Bytes → DecodedPdus → Option LayerResult
  decode_l4 ip_proto bytes out = elim (ip_proto == ip_proto_tcp) [
    | true ↦ overlay mem bytes 0 tcp >>= λ r. elim r [
      | none ↦ some (out, none)
      | some seg ↦ add_pdu pid out tcp seg >>= λ out'. some (
        out',
        some (
          tcp_length seg,
          pack_ports (word_host tcp "src_port" seg) (word_host tcp "dst_port" seg),
        ),
      )
    ]
    | false ↦ elim (ip_proto == ip_proto_udp) [
      | true ↦ overlay mem bytes 0 udp >>= λ r. elim r [
        | none ↦ some (out, none)
        | some seg ↦ add_pdu pid out udp seg >>= λ out'. some (
          out',
          some (
            size_of udp,
            pack_ports (word_host udp "src_port" seg) (word_host udp "dst_port" seg),
          ),
        )
      ]
      | false ↦ some (out, none)
    ]
  ]
