-- ===== src/Dpar/Seen.antt =====
-- dpar.hpp: the matcher's walk fills its two arrays with headers that lie inside the packet.
use nanotins.Shared.{ℕ, ◌+◌, ◌≤◌, ◌≡◌, refl, sym, subst, ◌∙◌, arith, List, [], ◌∷◌, ◌++◌, length}
use nanotins.Shared.{Option, none, some, Bool, true, false, ◌==◌, if◌then◌else◌, write_at-get_elem?}
use nanotins.WireSpec.{spec_size}
use nanotins.Shared.{get_elem?}
use nanotins.Bulk.Keys.{key_split}
use nanotins.Dag.{Node, eth, spec, walk, WalkResult}
use nanotins.Dag.Nodes.{node_id, node_key}
use nanotins.Dag.Trace.{Visit, record_visit, PathOf, fold_visits, walk-PathOf, walk-fold_visits}
use mathlib.Core.List.{append-nil, append_assoc}
use nanotins.Dpar.Fires.{last_offset, last_offset-append}
use nanotins.Dpar.Match.{Seen, none_seen, note_visit}

-- The entries of a node after the visits `vs`: the offset of its last visit, whose header is inside
-- the packet, when the node is present, and it is present when it is visited.
pub record Noted (pkt : List ℕ) (vs : List Visit) (seen : Seen) (n : Node) : Type 0 where
  pub off : ℕ
  pub there : Bool
  pub at_off : get_elem? seen.off_by_node (node_id n) ≡ some off
  pub at_present : get_elem? seen.present (node_id n) ≡ some there
  pub last : last_offset (node_id n) vs ≡ (if there then some off else none)
  pub inside : there ≡ true → off + spec_size (spec n) ≤ length pkt

abbrev pub SeenOk : List ℕ → List Visit → Seen → Type 0
SeenOk pkt vs seen = (n : Node) → Noted pkt vs seen n

none_seen-SeenOk : (pkt : List ℕ) → SeenOk pkt [] none_seen
none_seen-SeenOk pkt n = record {
  off = 0;
  there = false;
  at_off = offs n;
  at_present = flags n;
  last = refl;
  inside = λ h. absurd cc;
}
  where
    offs : (n : Node) → get_elem? none_seen.off_by_node (node_id n) ≡ some 0
    offs n = ground arith

    flags : (n : Node) → get_elem? none_seen.present (node_id n) ≡ some false
    flags n = ground arith

note_visit-SeenOk :
    (pkt : List ℕ) (vs : List Visit) (seen : Seen) (n : Node) (off : ℕ)
    → SeenOk pkt vs seen
    → off + spec_size (spec n) ≤ length pkt
    → (seen' : Seen) × (note_visit seen n off ≡ some seen')
      × SeenOk pkt (vs ++ ((n, off) ∷ [])) seen'
note_visit-SeenOk pkt vs seen n off ok fits =
    let o = ok n in
    let (offs, wrote, here, others) =
      write_at-get_elem? seen.off_by_node (node_id n) o.off off o.at_off in
    let (ps, wrote', here', others') =
      write_at-get_elem? seen.present (node_id n) o.there true o.at_present in
    let seen' : Seen = record { off_by_node = offs; present = ps } in
    (
      seen',
      rw wrote (rw wrote' refl),
      key_split n (Noted pkt (vs ++ ((n, off) ∷ [])) seen')
          (record {
            off = off;
            there = true;
            at_off = here;
            at_present = here';
            last =
                let hit : (node_id n == node_id n) ≡ true = ground arith in
                last_offset-append (node_id n) vs n off ∙ rw hit refl;
            inside = λ h. fits;
          })
          (λ m d. record {
            off = (ok m).off;
            there = (ok m).there;
            at_off = others (node_id m) d ∙ (ok m).at_off;
            at_present = others' (node_id m) d ∙ (ok m).at_present;
            last =
                let miss : (node_id n == node_id m) ≡ false = ground arith in
                last_offset-append (node_id m) vs n off ∙ rw miss (ok m).last;
            inside = (ok m).inside;
          }),
    )

fold_visits-SeenOk :
    (pkt : List ℕ) (before : List Visit) (o : Option Node) (off : ℕ) (vs : List Visit) (last : ℕ)
    (seen : Seen)
    → PathOf pkt o off vs last
    → SeenOk pkt before seen
    → (seen' : Seen) × (fold_visits note_visit seen vs ≡ some seen')
      × SeenOk pkt (before ++ vs) seen'
fold_visits-SeenOk pkt before o off [] last seen path ok =
    (seen, refl, subst (λ ws. SeenOk pkt ws seen) (sym (append-nil before)) ok)
fold_visits-SeenOk pkt before o off ((n, q) ∷ vs) last seen
      (e, at, fits, (a, ea, long, (o', en, rest))) ok =
    let (seen1, noted, ok1) = note_visit-SeenOk pkt before seen n q ok fits in
    let (seen2, done, ok2) =
      fold_visits-SeenOk pkt (before ++ ((n, q) ∷ [])) o' (q + a) vs last seen1 rest ok1 in
    (
      seen2,
      rw noted done,
      subst (λ ws. SeenOk pkt ws seen2) (append_assoc before ((n, q) ∷ []) vs) ok2,
    )

-- The matcher's walk, and the visits that its arrays hold.
pub record Walked (pkt : List ℕ) : Type 0 where
  pub visits : List Visit
  pub result : WalkResult
  pub seen : Seen
  pub listed : walk pkt record_visit eth [] ≡ some (visits, result)
  pub path : PathOf pkt (some eth) 0 visits result.consumed
  pub noted : walk pkt note_visit eth none_seen ≡ some (seen, result)
  pub ok : SeenOk pkt visits seen

pub walk-SeenOk : (pkt : List ℕ) → Walked pkt
walk-SeenOk pkt =
    let (vs, r, e, path, short, steps) = walk-PathOf pkt eth in
    let (seen, done, ok) =
      fold_visits-SeenOk pkt [] (some eth) 0 vs r.consumed none_seen path (none_seen-SeenOk pkt) in
    record {
      visits = vs;
      result = r;
      seen = seen;
      listed = e;
      path = path;
      noted = walk-fold_visits pkt eth Seen note_visit none_seen ∙ rw e (rw done refl);
      ok = ok;
    }
