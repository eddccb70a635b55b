-- ===== src/Dag.antt =====
-- nanotins/include/nanotins/spec_dag.hpp: the dispatch graph of the header nodes and the bounded walk
-- over it. A packet is the buffer `pkt`, and its size is the buffer's length, so that a read past the
-- packet faults. A node id is the node itself, and -1 is `none`.
pub mod Nodes
pub mod Headers
pub mod Trace
pub mod Decode
pub mod Children
use nanotins.Shared.{ℕ, zero, suc, ◌+◌, ◌*◌, List, [], ◌∷◌, ◌++◌, length, Option, none, some}
use nanotins.Shared.{Bool, true, false, ltb, leb, ◌==◌, if◌then◌else◌, ◌>>=◌}
use nanotins.WireSpec.{Spec, spec_size, view}
use nanotins.WireSpec.Protocols.{
  ethernet_spec, vlan_tag_spec, ipv4_spec, ipv6_spec, tcp_spec, udp_spec, ipv6_ext_opt_spec,
  ipv6_srh_spec, ipv6_fragment_spec, ipv6_ah_spec,
}
use nanotins.WireSpec.Protocols.Ptp.{
  ptp_header_spec, ptp_timestamp_body_spec, ptp_ts_port_body_spec, ptp_announce_body_spec,
  ptp_signaling_body_spec,
}
use nanotins.WireSpec.Protocols.Someip.{someip_spec}

-- L2L3Graph, in the order of its list: a node's id is its position.
pub data Node : Type 0 where
  eth vlan ipv4 ipv6 tcp udp gptp ptp_timestamp ptp_ts_port ptp_announce ptp_signaling : Node
  ipv6_hop_by_hop ipv6_routing ipv6_fragment ipv6_dest_opt ipv6_ah someip : Node

abbrev pub spec : Node → Spec
spec eth = ethernet_spec
spec vlan = vlan_tag_spec
spec ipv4 = ipv4_spec
spec ipv6 = ipv6_spec
spec tcp = tcp_spec
spec udp = udp_spec
spec gptp = ptp_header_spec
spec ptp_timestamp = ptp_timestamp_body_spec
spec ptp_ts_port = ptp_ts_port_body_spec
spec ptp_announce = ptp_announce_body_spec
spec ptp_signaling = ptp_signaling_body_spec
spec ipv6_hop_by_hop = ipv6_ext_opt_spec
spec ipv6_routing = ipv6_srh_spec
spec ipv6_fragment = ipv6_fragment_spec
spec ipv6_dest_opt = ipv6_ext_opt_spec
spec ipv6_ah = ipv6_ah_spec
spec someip = someip_spec

-- An edge: an exact key and the target node.
abbrev pub Edge : Type 0
Edge = ℕ × Node

-- The fold over the edge table: every edge is compared, and a later match replaces an earlier one.
unfoldable pub match_from : Option Node → List Edge → ℕ → Option Node
match_from target [] key = target
match_from target ((k, n) ∷ edges) key = match_from (if key == k then some n else target) edges key

unfoldable pub match_edges : List Edge → ℕ → Option Node
match_edges edges key = match_from none edges key

abbrev pub ethertype_edges : List Edge
ethertype_edges =
    (0x8100, vlan) ∷ (0x88A8, vlan) ∷ (0x0800, ipv4) ∷ (0x86DD, ipv6) ∷ (0x88F7, gptp) ∷ []

abbrev pub ip_proto_edges : List Edge
ip_proto_edges = (6, tcp) ∷ (17, udp) ∷ []

abbrev pub ip6_next_edges : List Edge
ip6_next_edges =
    (0, ipv6_hop_by_hop)
    ∷ (43, ipv6_routing)
    ∷ (44, ipv6_fragment)
    ∷ (60, ipv6_dest_opt)
    ∷ (51, ipv6_ah)
    ∷ (6, tcp)
    ∷ (17, udp)
    ∷ []

abbrev pub someip_edges : List Edge
someip_edges = (30490, someip) ∷ []

abbrev pub ptp_msgtype_edges : List Edge
ptp_msgtype_edges =
    (0x0, ptp_timestamp)
    ∷ (0x8, ptp_timestamp)
    ∷ (0x1, ptp_timestamp)
    ∷ (0x2, ptp_timestamp)
    ∷ (0x9, ptp_ts_port)
    ∷ (0x3, ptp_ts_port)
    ∷ (0xA, ptp_ts_port)
    ∷ (0xB, ptp_announce)
    ∷ (0xC, ptp_signaling)
    ∷ []

-- The SOME/IP port on either endpoint, the destination first.
pub someip_port_dispatch : (dst src : ℕ) → Option Node
someip_port_dispatch dst src = elim (match_edges someip_edges dst) [
  | some n ↦ some n
  | none ↦ match_edges someip_edges src
]

-- `hdr >= 20 ? hdr : 20`.
abbrev pub at_least_20 : ℕ → ℕ
at_least_20 hdr = if leb 20 hdr then hdr else 20

-- `advance(p)`: the length of the node's header at `p`.
unfoldable pub advance : List ℕ → ℕ → Node → Option ℕ
advance pkt p eth = some 14
advance pkt p vlan = some 4
advance pkt p ipv4 = view pkt p ipv4_spec "ihl" >>= λ ihl. some (at_least_20 (ihl * 4))
advance pkt p ipv6 = some 40
advance pkt p tcp = view pkt p tcp_spec "data_offset" >>= λ n. some (at_least_20 (n * 4))
advance pkt p udp = some 8
advance pkt p gptp = some 34
advance pkt p ptp_timestamp = some (spec_size ptp_timestamp_body_spec)
advance pkt p ptp_ts_port = some (spec_size ptp_ts_port_body_spec)
advance pkt p ptp_announce = some (spec_size ptp_announce_body_spec)
advance pkt p ptp_signaling = some (spec_size ptp_signaling_body_spec)
advance pkt p ipv6_hop_by_hop =
    view pkt p ipv6_ext_opt_spec "hdr_ext_len" >>= λ n. some ((n + 1) * 8)
advance pkt p ipv6_routing = view pkt p ipv6_srh_spec "hdr_ext_len" >>= λ n. some ((n + 1) * 8)
advance pkt p ipv6_fragment = some 8
advance pkt p ipv6_dest_opt = view pkt p ipv6_ext_opt_spec "hdr_ext_len" >>= λ n. some ((n + 1) * 8)
advance pkt p ipv6_ah = view pkt p ipv6_ah_spec "payload_len" >>= λ n. some ((n + 2) * 4)
advance pkt p someip = some 16

-- `next<Graph>(p)`: the node that follows, `some none` for -1.
unfoldable pub next : List ℕ → ℕ → Node → Option (Option Node)
next pkt p eth = view pkt p ethernet_spec "ethertype" >>= λ t. some (match_edges ethertype_edges t)
next pkt p vlan =
    view pkt p vlan_tag_spec "inner_ethertype" >>= λ t. some (match_edges ethertype_edges t)
next pkt p ipv4 = view pkt p ipv4_spec "frag_offset" >>= λ frag.
    if frag == 0
    then (view pkt p ipv4_spec "protocol" >>= λ k. some (match_edges ip_proto_edges k))
    else some none
next pkt p ipv6 = view pkt p ipv6_spec "next_header" >>= λ k. some (match_edges ip6_next_edges k)
next pkt p tcp = view pkt p tcp_spec "dst_port" >>= λ dst.
    view pkt p tcp_spec "src_port" >>= λ src. some (someip_port_dispatch dst src)
next pkt p udp = view pkt p udp_spec "dst_port" >>= λ dst.
    view pkt p udp_spec "src_port" >>= λ src. some (someip_port_dispatch dst src)
next pkt p gptp =
    view pkt p ptp_header_spec "message_type" >>= λ k. some (match_edges ptp_msgtype_edges k)
next pkt p ipv6_hop_by_hop =
    view pkt p ipv6_ext_opt_spec "next_header" >>= λ k. some (match_edges ip6_next_edges k)
next pkt p ipv6_routing =
    view pkt p ipv6_srh_spec "next_header" >>= λ k. some (match_edges ip6_next_edges k)
next pkt p ipv6_fragment = view pkt p ipv6_fragment_spec "frag_offset" >>= λ frag.
    if frag == 0
    then (view pkt p ipv6_fragment_spec "next_header" >>= λ k. some (match_edges ip6_next_edges k))
    else some none
next pkt p ipv6_dest_opt =
    view pkt p ipv6_ext_opt_spec "next_header" >>= λ k. some (match_edges ip6_next_edges k)
next pkt p ipv6_ah =
    view pkt p ipv6_ah_spec "next_header" >>= λ k. some (match_edges ip6_next_edges k)
next pkt p ptp_timestamp = some none
next pkt p ptp_ts_port = some none
next pkt p ptp_announce = some none
next pkt p ptp_signaling = some none
next pkt p someip = some none

pub record WalkResult : Type 0 where
  pub consumed : ℕ
  pub steps : ℕ

abbrev pub max_walk_steps : ℕ
max_walk_steps = 32

module _ {ℓ} {S : Type ℓ} (pkt : List ℕ) (visit : S → Node → ℕ → Option S) where
  -- What `dispatch_node` does at a node whose header fits: the visit, the advance, and the next node.
  unfoldable pub dispatch_node : S → Node → ℕ → Option (S × ℕ × Option Node)
  dispatch_node s n off = do
    s' ← visit s n off
    adv ← advance pkt off n
    next_id ← next pkt off n
    some (s', adv, next_id)

  -- The loop of `walk`, with the steps that are left of kMaxWalkSteps; the visitor's state is `s`.
  unfoldable pub walk_loop : ℕ → Option Node → ℕ → S → WalkResult → Option (S × WalkResult)
  walk_loop zero o off s r = some (s, r)
  walk_loop (suc left) none off s r = some (s, r)
  walk_loop (suc left) (some n) off s r = elim (ltb (length pkt) (off + spec_size (spec n))) [
    | true ↦ some (s, r)
    | false ↦ dispatch_node s n off >>= λ d.
        walk_loop left d.2 (off + d.1) d.0 (record { consumed = off + d.1; steps = suc r.steps })
  ]

  unfoldable pub walk : Node → S → Option (S × WalkResult)
  walk root s = walk_loop max_walk_steps (some root) 0 s (record { consumed = 0; steps = 0 })
