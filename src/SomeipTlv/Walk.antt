-- ===== src/SomeipTlv/Walk.antt =====
-- someip_tlv.hpp: the loops over the cursor end, and the count pass agrees with the visits.
use nanotins.Shared.{ℕ, zero, suc, ◌+◌, ◌-◌, ◌*◌, ◌%◌, ◌^◌, ◌≤◌, ◌<◌, ◌≡◌, refl, ap, ◌∙◌, arith}
use nanotins.Shared.{Option, none, some, List, [], ◌∷◌, length, All}
use nanotins.Shared.Bits.{u32}
use nanotins.SomeipTlv.{
  MemberRecord, MemberCursor, Next, next, count_loop, someip_tlv_count, members_loop,
  someip_tlv_members,
}
use nanotins.SomeipTlv.Bounds.{Lands, Advances, ValueEnds, member_next-Advances}

-- A member's value, where it has one, lies in [lo, hi).
abbrev pub ValueWithin : (lo hi len : ℕ) → Option ℕ → Type 0
ValueWithin lo hi len none = len ≡ 0
ValueWithin lo hi len (some v) = (lo + 2 ≤ v) × (v + len ≤ hi)

abbrev pub Within : (lo hi : ℕ) → MemberRecord → Type 0
Within lo hi r = ValueWithin lo hi r.len r.value

ValueWithin-mono :
    (lo lo' hi hi' len : ℕ) (v : Option ℕ)
    → lo ≤ lo'
    → hi' ≡ hi
    → ValueWithin lo' hi' len v
    → ValueWithin lo hi len v
ValueWithin-mono lo lo' hi hi' len none h e w = w
ValueWithin-mono lo lo' hi hi' len (some v) h e w = omega arith

All-Within-mono :
    (lo lo' hi hi' : ℕ) (rs : List MemberRecord)
    → lo ≤ lo'
    → hi' ≡ hi
    → All (Within lo' hi') rs
    → All (Within lo hi) rs
All-Within-mono lo lo' hi hi' [] h e w = tt
All-Within-mono lo lo' hi hi' (r ∷ rs) h e w =
    (ValueWithin-mono lo lo' hi hi' r.len r.value h e w.0, All-Within-mono lo lo' hi hi' rs h e w.1)

ValueWithin-of :
    (p q hi len : ℕ) (v : Option ℕ) → q ≤ hi → ValueEnds p q len v → ValueWithin p hi len v
ValueWithin-of p q hi len none h b = b
ValueWithin-of p q hi len (some v) h b = omega arith

-- What the loop delivers with enough fuel.
pub record Visits (fuel : ℕ) (mem : List ℕ) (c : MemberCursor) (p : ℕ) : Type 0 where
  pub records : List MemberRecord
  pub delivered : members_loop fuel mem c ≡ some records
  pub short : 2 * length records ≤ c.end - p
  pub within : All (Within p c.end) records
  pub counted :
      (n : ℕ) → n < 2 ^ 32 → count_loop fuel mem c n ≡ some ((n + length records) % 2 ^ 32)

module _ (fuel : ℕ) (mem : List ℕ) (c : MemberCursor) (p : ℕ) where
  Visits_stop : next mem c ≡ some none → Visits (suc fuel) mem c p
  unfolding members_loop count_loop
  Visits_stop e = record {
    records = [];
    delivered = rw e;
    short = omega arith;
    within = tt;
    counted = λ n h. rw e (ap some (omega arith));
  }

  Visits_step :
      (r : MemberRecord) (c' : MemberCursor) (q : ℕ)
      → next mem c ≡ some (some (r, c'))
      → Lands p c.end r.len r.value (some q) c'.end
      → Visits fuel mem c' q
      → Visits (suc fuel) mem c p
  unfolding members_loop count_loop
  Visits_step r c' q e f v = record {
    records = r ∷ v.records;
    delivered = rw e (rw v.delivered);
    short = omega (arith, v.short);
    within = (
      ValueWithin-of p q c.end r.len r.value f.1 f.3,
      All-Within-mono p q c.end c'.end v.records (omega arith) f.2 v.within,
    );
    counted = λ n h. rw e (v.counted (u32 (n + 1)) (omega arith) ∙ ap some (omega arith));
  }

abbrev Runs : ℕ → List ℕ → Type 0
Runs fuel mem =
    (c : MemberCursor) (p : ℕ)
    → c.p ≡ some p
    → c.end ≤ length mem
    → c.end - p < fuel
    → Visits fuel mem c p

Visits_of :
    (fuel : ℕ) (mem : List ℕ) (c : MemberCursor) (p : ℕ)
    → Runs fuel mem
    → c.end ≤ length mem
    → c.end - p < suc fuel
    → (n : Next) → next mem c ≡ n
    → Advances p c.end n
    → Visits (suc fuel) mem c p
Visits_of fuel mem c p ih inside h none e a = absurd a
Visits_of fuel mem c p ih inside h (some none) e a = Visits_stop fuel mem c p e
Visits_of fuel mem c p ih inside h (some (some (r, c'))) e a = go c'.p refl a
  where
    go :
        (o : Option ℕ) → c'.p ≡ o → Lands p c.end r.len r.value o c'.end → Visits (suc fuel) mem c p
    go none eo l = absurd l
    go (some q) eo l = Visits_step fuel mem c p r c' q e l (ih c' q eo (omega arith) (omega arith))

loop-Visits : (fuel : ℕ) (mem : List ℕ) → Runs fuel mem
loop-Visits zero mem c p e inside h = absurd (omega arith)
loop-Visits (suc fuel) mem c p e inside h =
    Visits_of fuel mem c p (loop-Visits fuel mem) inside h (next mem c) refl
      (member_next-Advances mem c p e inside)

-- The walk over any region inside the buffer ends without a fault, and the count pass agrees with it:
-- the member loop delivers a list of at most `(end - p) / 2` members whose values lie inside the
-- region, and `someip_tlv_count` answers the length of that list, modulo 2^32.
pub someip_tlv_count-members :
    (mem : List ℕ) (p end : ℕ)
    → end ≤ length mem
    → (rs : List MemberRecord) × (someip_tlv_members mem p end ≡ some rs)
      × (someip_tlv_count mem p end ≡ some (length rs % 2 ^ 32))
      × (2 * length rs ≤ end - p)
      × All (Within p end) rs
unfolding someip_tlv_members someip_tlv_count
someip_tlv_count-members mem p end inside =
    let v =
      loop-Visits (suc (end - p)) mem (record { p = some p; end = end }) p refl inside
        (omega arith) in
    (v.records, v.delivered, v.counted 0 (omega arith) ∙ ap some (omega arith), v.short, v.within)
