-- ===== src/Tests/DagRuns.antt =====
-- The graph walk: a run, and the theorems at a concrete packet.
use nanotins.Shared.{ℕ, ◌≤◌, ◌≡◌, arith, List, [], ◌∷◌, ◌++◌, length, some}
use nanotins.Shared.{replicate, All}
use nanotins.WireSpec.{read_field}
use nanotins.WireSpec.Protocols.{udp_spec}
use nanotins.WireSpec.Bounds
use nanotins.WireSpec.Bounds.{IsRead}
use nanotins.Dag.{eth, WalkResult, walk}
use nanotins.Dag.Trace
use nanotins.Dag.Trace.{Visit, PathOf, record_visit, fold_visits}

-- An Ethernet frame with an IPv4 header that carries UDP from port 5 to port 7.
abbrev udp_frame : List ℕ
udp_frame =
    replicate 12 1
    ++ (0x08
        ∷ 0x00
        ∷ 0x45
        ∷ 0
        ∷ 0
        ∷ 28
        ∷ 0
        ∷ 0
        ∷ 0
        ∷ 0
        ∷ 64
        ∷ 17
        ∷ 0
        ∷ 0
        ∷ (replicate 8 10 ++ (0 ∷ 5 ∷ 0 ∷ 7 ∷ 0 ∷ 8 ∷ 0 ∷ 0 ∷ [])))

spec_size-reads_example : All (λ f. IsRead (read_field udp_frame 34 f)) udp_spec
spec_size-reads_example = Bounds.spec_size-reads udp_frame 34 udp_spec (omega arith)

walk-PathOf_example :
    (vs : List Visit) × (r : WalkResult) × (walk udp_frame record_visit eth [] ≡ some (vs, r))
    × PathOf udp_frame (some eth) 0 vs r.consumed
    × (length vs ≤ 32)
    × (r.steps ≡ length vs)
walk-PathOf_example = Trace.walk-PathOf udp_frame eth
