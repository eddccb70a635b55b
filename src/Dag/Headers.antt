-- ===== src/Dag/Headers.antt =====
-- spec_dag.hpp: at a header that fits, a node reads its length and its successor without a fault.
use nanotins.Shared.{ℕ, ◌+◌, ◌*◌, ◌≤◌, ◌≡◌, refl, arith, List, length}
use nanotins.Shared.{Option, none, some, ◌>>=◌, Bool-cases, inl, inr}
use nanotins.Shared.{◌==◌, if◌then◌else◌}
use nanotins.WireSpec.{Spec, spec_size, view}
use Prim.Native.String.{String}
use nanotins.WireSpec.Bounds.{IsRead, IsRead-map, view-IsRead}
use nanotins.WireSpec.Protocols.{
  ethernet_spec, vlan_tag_spec, ipv4_spec, ipv6_spec, tcp_spec, udp_spec, ipv6_ext_opt_spec,
  ipv6_srh_spec, ipv6_fragment_spec, ipv6_ah_spec,
}
use nanotins.WireSpec.Protocols.Ptp.{ptp_header_spec}
use nanotins.Dag.{
  Node, eth, vlan, ipv4, ipv6, tcp, udp, gptp, ptp_timestamp, ptp_ts_port, ptp_announce,
  ptp_signaling, ipv6_hop_by_hop, ipv6_routing, ipv6_fragment, ipv6_dest_opt, ipv6_ah, someip, spec,
  advance, next, at_least_20,
}

module _ (pkt : List ℕ) (p : ℕ) where
  abbrev Header : Node → Type 0
  Header n = p + spec_size (spec n) ≤ length pkt

  abbrev Advances : Node → Type 0
  Advances n = (a : ℕ) × (advance pkt p n ≡ some a) × (4 ≤ a)

  pub advance-Advances : (n : Node) → Header n → Advances n
  unfolding advance
  advance-Advances eth h = (14, refl, omega arith)
  advance-Advances vlan h = (4, refl, omega arith)
  advance-Advances ipv4 h =
      let (v, e) = view-IsRead pkt p ipv4_spec "ihl" _ refl refl h in
      (at_least_20 (v * 4), rw e, ground arith)
  advance-Advances ipv6 h = (40, refl, omega arith)
  advance-Advances tcp h =
      let (v, e) = view-IsRead pkt p tcp_spec "data_offset" _ refl refl h in
      (at_least_20 (v * 4), rw e, ground arith)
  advance-Advances udp h = (8, refl, omega arith)
  advance-Advances gptp h = (34, refl, omega arith)
  advance-Advances ptp_timestamp h = (10, refl, omega arith)
  advance-Advances ptp_ts_port h = (20, refl, omega arith)
  advance-Advances ptp_announce h = (30, refl, omega arith)
  advance-Advances ptp_signaling h = (10, refl, omega arith)
  advance-Advances ipv6_hop_by_hop h =
      let (v, e) = view-IsRead pkt p ipv6_ext_opt_spec "hdr_ext_len" _ refl refl h in
      ((v + 1) * 8, rw e, omega arith)
  advance-Advances ipv6_routing h =
      let (v, e) = view-IsRead pkt p ipv6_srh_spec "hdr_ext_len" _ refl refl h in
      ((v + 1) * 8, rw e, omega arith)
  advance-Advances ipv6_fragment h = (8, refl, omega arith)
  advance-Advances ipv6_dest_opt h =
      let (v, e) = view-IsRead pkt p ipv6_ext_opt_spec "hdr_ext_len" _ refl refl h in
      ((v + 1) * 8, rw e, omega arith)
  advance-Advances ipv6_ah h =
      let (v, e) = view-IsRead pkt p ipv6_ah_spec "payload_len" _ refl refl h in
      ((v + 2) * 4, rw e, omega arith)
  advance-Advances someip h = (16, refl, omega arith)

  next_ports :
      (s : Spec)
      → IsRead (view pkt p s "dst_port")
      → IsRead (view pkt p s "src_port")
      → (f : ℕ → ℕ → Option Node)
      → IsRead (view pkt p s "dst_port" >>= λ d. view pkt p s "src_port" >>= λ c. some (f d c))
  next_ports s (d, ed) (c, ec) f = (f d c, rw (ed, ec))

  next_gated :
      (s : Spec) (key : String) (f : ℕ → Option Node)
      → IsRead (view pkt p s "frag_offset")
      → IsRead (view pkt p s key)
      → IsRead (
          view pkt p s "frag_offset" >>= λ frag.
          if frag == 0 then (view pkt p s key >>= λ k. some (f k)) else some none)
  next_gated s key f (frag, e) (k, ek) = elim (Bool-cases (frag == 0)) [
    | inl first ↦ (f k, rw e (rw first (rw ek)))
    | inr later ↦ (none, rw e (rw later))
  ]

  pub next-IsRead : (n : Node) → Header n → IsRead (next pkt p n)
  unfolding next
  next-IsRead eth h = IsRead-map _ _ (view-IsRead pkt p ethernet_spec "ethertype" _ refl refl h)
  next-IsRead vlan h =
      IsRead-map _ _ (view-IsRead pkt p vlan_tag_spec "inner_ethertype" _ refl refl h)
  next-IsRead ipv4 h =
      next_gated ipv4_spec "protocol" _ (view-IsRead pkt p ipv4_spec "frag_offset" _ refl refl h)
        (view-IsRead pkt p ipv4_spec "protocol" _ refl refl h)
  next-IsRead ipv6 h = IsRead-map _ _ (view-IsRead pkt p ipv6_spec "next_header" _ refl refl h)
  next-IsRead tcp h =
      next_ports tcp_spec (view-IsRead pkt p tcp_spec "dst_port" _ refl refl h)
        (view-IsRead pkt p tcp_spec "src_port" _ refl refl h) _
  next-IsRead udp h =
      next_ports udp_spec (view-IsRead pkt p udp_spec "dst_port" _ refl refl h)
        (view-IsRead pkt p udp_spec "src_port" _ refl refl h) _
  next-IsRead gptp h =
      IsRead-map _ _ (view-IsRead pkt p ptp_header_spec "message_type" _ refl refl h)
  next-IsRead ptp_timestamp h = (none, refl)
  next-IsRead ptp_ts_port h = (none, refl)
  next-IsRead ptp_announce h = (none, refl)
  next-IsRead ptp_signaling h = (none, refl)
  next-IsRead ipv6_hop_by_hop h =
      IsRead-map _ _ (view-IsRead pkt p ipv6_ext_opt_spec "next_header" _ refl refl h)
  next-IsRead ipv6_routing h =
      IsRead-map _ _ (view-IsRead pkt p ipv6_srh_spec "next_header" _ refl refl h)
  next-IsRead ipv6_fragment h =
      next_gated ipv6_fragment_spec "next_header" _
        (view-IsRead pkt p ipv6_fragment_spec "frag_offset" _ refl refl h)
        (view-IsRead pkt p ipv6_fragment_spec "next_header" _ refl refl h)
  next-IsRead ipv6_dest_opt h =
      IsRead-map _ _ (view-IsRead pkt p ipv6_ext_opt_spec "next_header" _ refl refl h)
  next-IsRead ipv6_ah h =
      IsRead-map _ _ (view-IsRead pkt p ipv6_ah_spec "next_header" _ refl refl h)
  next-IsRead someip h = (none, refl)
