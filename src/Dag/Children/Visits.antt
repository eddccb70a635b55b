-- ===== src/Dag/Children/Visits.antt =====
-- What the three headers of child tables, ipv4_children.hpp, ipv6_children.hpp and someip_sd.hpp of
-- nanotins/include/nanotins, share with their harnesses ipv4_children_bulk.hpp,
-- ipv6_children_bulk.hpp and someip_sd_bulk.hpp: the passes over a packet, for any visits of a node
-- that emit child rows. The child tables are a function of their key, and each is the list of its
-- rows.
pub mod Rows
pub mod Agreement
use nanotins.Shared.{ℕ, List, [], ◌∷◌, Option, some, ◌>>=◌}
use nanotins.Dag.{Node, walk}
use nanotins.Bulk.{Key, Tables, Counts, append_row, bump, scatter_row, PacketPasses, decode_bulk}
use nanotins.Dag.Decode.{Row, DagPacket, append_visit}

-- What a pass does at a visited node. `emit` hands each child row with the key of its table to a
-- callback; `count` only the keys. `Carried` is what the visitor keeps from header to header. `Takes`
-- says which rows a table's columns can hold.
pub record ChildVisits (K R : Type 0) : Type 1 where
  pub Carried : Type 0
  pub first : Carried
  pub emit :
      DagPacket
      → (S : Type 0) → (S → K → R → Option S)
      → Carried × S
      → Node
      → ℕ
      → Option (Carried × S)
  pub count : List ℕ → (S : Type 0) → (S → K → S) → S → Node → ℕ → Option S
  pub blank : K → R
  pub Takes : K → R → Type 0

module _ {K R : Type 0} ⦃key : Key K⦄ (v : ChildVisits K R) where
  -- The fixed row of a node, and then its children.
  abbrev pub decode_child_visit :
      DagPacket
      → v.Carried × Tables Node Row × Tables K R
      → Node
      → ℕ
      → Option (v.Carried × Tables Node Row × Tables K R)
  decode_child_visit p (o, tabs, kids) n off =
      append_visit p.packet_id p.bytes tabs n off >>= λ tabs'.
      v.emit p (Tables K R) append_row (o, kids) n off >>= λ s. some (s.0, tabs', s.1)

  unfoldable pub decode_with_children :
      Node → DagPacket → Tables Node Row → Tables K R → Option (Tables Node Row × Tables K R)
  decode_with_children root p tabs kids =
      walk p.bytes (decode_child_visit p) root (v.first, tabs, kids) >>= λ t.
      some ((t.0).1, (t.0).2)

  -- The children alone.
  unfoldable pub decode_children : Node → DagPacket → Tables K R → Option (Tables K R)
  decode_children root p kids =
      walk p.bytes (v.emit p (Tables K R) append_row) root (v.first, kids) >>= λ t. some (t.0).1

  unfoldable pub count_children : Node → List ℕ → Option (Counts K)
  count_children root pkt = walk pkt (v.count pkt (Counts K) bump) root (λ n. 0) >>= λ t. some t.0

  unfoldable pub scatter_children : Node → DagPacket → Counts K → Tables K R → Option (Tables K R)
  scatter_children root p base tabs =
      walk p.bytes (v.emit p (Counts K × Tables K R) scatter_row) root (v.first, (base, tabs))
      >>= λ t. some ((t.0).1).1

  abbrev pub child_passes : Node → PacketPasses DagPacket K R
  child_passes root = record {
    decode = decode_children root;
    count = λ p. count_children root p.bytes;
    scatter = scatter_children root;
    blank = v.blank;
  }

  -- The harness of the child tables: count, exclusive prefix sum, resize, scatter.
  abbrev pub children_bulk : Node → List DagPacket → List ℕ → Tables K R → Option (Tables K R)
  children_bulk root = decode_bulk (child_passes root)

  -- The packets decoded with their children, one after the other.
  unfoldable pub decode_all_with_children :
      Node → List DagPacket → Tables Node Row → Tables K R → Option (Tables Node Row × Tables K R)
  decode_all_with_children root [] tabs kids = some (tabs, kids)
  decode_all_with_children root (p ∷ ps) tabs kids =
      decode_with_children root p tabs kids >>= λ s. decode_all_with_children root ps s.0 s.1
