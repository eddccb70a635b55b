-- ===== src/Dag/Nodes.antt =====
-- dispatch_graph.hpp: the position of a node in the graph's list, the key of the per-node arrays.
use nanotins.Shared.{ℕ, ◌≡◌, refl, sym, ap, ◌∙◌, get_or, [], ◌∷◌}
use nanotins.Bulk.{Key}
use nanotins.Dag.{
  Node, eth, vlan, ipv4, ipv6, tcp, udp, gptp, ptp_timestamp, ptp_ts_port, ptp_announce,
  ptp_signaling, ipv6_hop_by_hop, ipv6_routing, ipv6_fragment, ipv6_dest_opt, ipv6_ah, someip,
}

-- node_id_v: the position in the graph's list.
abbrev pub node_id : Node → ℕ
node_id eth = 0
node_id vlan = 1
node_id ipv4 = 2
node_id ipv6 = 3
node_id tcp = 4
node_id udp = 5
node_id gptp = 6
node_id ptp_timestamp = 7
node_id ptp_ts_port = 8
node_id ptp_announce = 9
node_id ptp_signaling = 10
node_id ipv6_hop_by_hop = 11
node_id ipv6_routing = 12
node_id ipv6_fragment = 13
node_id ipv6_dest_opt = 14
node_id ipv6_ah = 15
node_id someip = 16

-- The node at a position.
abbrev node_at : ℕ → Node
node_at k =
    get_or
      (eth ∷ vlan ∷ ipv4 ∷ ipv6 ∷ tcp ∷ udp ∷ gptp ∷ ptp_timestamp ∷ ptp_ts_port ∷ ptp_announce
        ∷ ptp_signaling ∷ ipv6_hop_by_hop ∷ ipv6_routing ∷ ipv6_fragment ∷ ipv6_dest_opt ∷ ipv6_ah
        ∷ someip ∷ [])
      k eth

pub node_at-node_id : (n : Node) → node_at (node_id n) ≡ n
node_at-node_id eth = refl
node_at-node_id vlan = refl
node_at-node_id ipv4 = refl
node_at-node_id ipv6 = refl
node_at-node_id tcp = refl
node_at-node_id udp = refl
node_at-node_id gptp = refl
node_at-node_id ptp_timestamp = refl
node_at-node_id ptp_ts_port = refl
node_at-node_id ptp_announce = refl
node_at-node_id ptp_signaling = refl
node_at-node_id ipv6_hop_by_hop = refl
node_at-node_id ipv6_routing = refl
node_at-node_id ipv6_fragment = refl
node_at-node_id ipv6_dest_opt = refl
node_at-node_id ipv6_ah = refl
node_at-node_id someip = refl

instance abbrev pub node_key : Key Node
node_key = record {
  id = node_id;
  id_inj = λ n m ids. sym (node_at-node_id n) ∙ ap node_at ids ∙ node_at-node_id m;
}
