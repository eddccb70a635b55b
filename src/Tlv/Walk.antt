-- ===== src/Tlv/Walk.antt =====
-- tlv.hpp: the loops over the cursor end, and the count pass agrees with the visits.
use nanotins.Shared.{ℕ, zero, suc, ◌+◌, ◌-◌, ◌%◌, ◌^◌, ◌≤◌, ◌<◌, ◌≡◌, refl, ap, ◌∙◌, subst, arith}
use nanotins.Shared.{Option, none, some, List, [], ◌∷◌, length, All, inl, inr}
use nanotins.Shared.Bits.{u32}
use nanotins.Tlv.{
  TlvRecord, TlvPad, TlvCursor, next, count_loop, tlv_count, records_loop, tlv_records,
}
use nanotins.Tlv.Bounds.{Forward, ValueBefore, next_cases}

-- A record's value, where it has one, lies in [lo, hi).
abbrev pub ValueWithin : (lo hi len : ℕ) → Option ℕ → Type 0
ValueWithin lo hi len none = len ≡ 0
ValueWithin lo hi len (some v) = (lo + 2 ≤ v) × (v + len ≤ hi)

abbrev pub Within : (lo hi : ℕ) → TlvRecord → Type 0
Within lo hi r = ValueWithin lo hi r.len r.value

ValueWithin-of :
    (p q hi len : ℕ) (v : Option ℕ) → q ≤ hi → ValueBefore p q len v → ValueWithin p hi len v
ValueWithin-of p q hi len none h b = b
ValueWithin-of p q hi len (some v) h b = omega arith

ValueWithin-mono :
    (lo lo' hi len : ℕ) (v : Option ℕ)
    → lo ≤ lo'
    → ValueWithin lo' hi len v
    → ValueWithin lo hi len v
ValueWithin-mono lo lo' hi len none h w = w
ValueWithin-mono lo lo' hi len (some v) h w = omega arith

All-Within-mono :
    (lo lo' hi : ℕ) (rs : List TlvRecord)
    → lo ≤ lo'
    → All (Within lo' hi) rs
    → All (Within lo hi) rs
All-Within-mono lo lo' hi [] h w = tt
All-Within-mono lo lo' hi (r ∷ rs) h w =
    (ValueWithin-mono lo lo' hi r.len r.value h w.0, All-Within-mono lo lo' hi rs h w.1)

-- What the loop over a region [p, end) delivers with enough fuel.
pub record Visits (fuel : ℕ) (mem : List ℕ) (c : TlvCursor) (p : ℕ) : Type 0 where
  pub records : List TlvRecord
  pub delivered : records_loop fuel mem c ≡ some records
  pub short : length records ≤ c.end - p
  pub within : All (Within p c.end) records
  pub counted :
      (n : ℕ) → n < 2 ^ 32 → count_loop fuel mem c n ≡ some ((n + length records) % 2 ^ 32)

Visits_stop :
    (fuel : ℕ) (mem : List ℕ) (c : TlvCursor) (p : ℕ)
    → next mem c ≡ some none
    → Visits (suc fuel) mem c p
unfolding records_loop count_loop
Visits_stop fuel mem c p e = record {
  records = [];
  delivered = rw e;
  short = omega arith;
  within = tt;
  counted = λ n h. rw e (ap some (omega arith));
}

Visits_step :
    (fuel : ℕ) (mem : List ℕ) (c : TlvCursor) (p : ℕ) (r : TlvRecord) (c' : TlvCursor) (q : ℕ)
    → next mem c ≡ some (some (r, c'))
    → Forward p c r c' q
    → Visits fuel mem c' q
    → Visits (suc fuel) mem c p
unfolding records_loop count_loop
Visits_step fuel mem c p r c' q e f v = record {
  records = r ∷ v.records;
  delivered = rw e (rw v.delivered);
  short = omega (arith, v.short, f.same_end, f.later, f.inside);
  within = (
    ValueWithin-of p q c.end r.len r.value f.inside f.value_before,
    All-Within-mono p q c.end v.records (omega (arith, f.later))
        (subst (λ e. All (Within q e) v.records) f.same_end v.within),
  );
  counted = λ n h. rw e (v.counted (u32 (n + 1)) (omega arith) ∙ ap some (omega arith));
}

loop-Visits :
    (fuel : ℕ) (mem : List ℕ) (c : TlvCursor) (p : ℕ)
    → c.p ≡ some p
    → c.end ≤ length mem
    → c.end - p < fuel
    → Visits fuel mem c p
loop-Visits zero mem c p e inside h = absurd (omega arith)
loop-Visits (suc fuel) mem c p e inside h = elim (next_cases mem c p e inside) [
  | inl stop ↦ Visits_stop fuel mem c p stop
  | inr (r, c', q, step, f) ↦ Visits_step fuel mem c p r c' q step f (
      loop-Visits fuel mem c' q f.at (omega (arith, f.same_end))
        (omega (arith, f.same_end, f.later, f.inside)))
]

-- The walk over any region inside the buffer ends without a fault, and the count pass agrees with it:
-- `tlv_records` delivers a list of at most `end - p` records whose values lie inside the region, and
-- `tlv_count` answers the length of that list, modulo 2^32.
pub tlv_count-records :
    (mem : List ℕ) (p end : ℕ) (pad : TlvPad)
    → end ≤ length mem
    → (rs : List TlvRecord) × (tlv_records mem p end pad ≡ some rs)
      × (tlv_count mem p end pad ≡ some (length rs % 2 ^ 32))
      × (length rs ≤ end - p)
      × All (Within p end) rs
unfolding tlv_records tlv_count
tlv_count-records mem p end pad inside =
    let v =
      loop-Visits (suc (end - p)) mem (record { p = some p; end = end; pad = pad }) p refl inside
        (omega arith) in
    (v.records, v.delivered, v.counted 0 (omega arith) ∙ ap some (omega arith), v.short, v.within)
