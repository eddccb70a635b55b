-- ===== src/Tlv/Bounds.antt =====
-- tlv.hpp: one call of the cursor stays inside its region.
use nanotins.Shared.{ℕ, ◌+◌, ◌*◌, ◌≤◌, ◌<◌, ◌≡◌, refl, arith, ◌↔◌, ◌⊎◌, Option, none, some, List}
use nanotins.Shared.{length, inl, inr}
use nanotins.Shared.Buffer.{byte, byte_at-lt}
use nanotins.Tlv.{
  TlvRecord, TlvPad, TlvCursor, Next, next_value, next_option_ipv4, next_typed, next_at, next,
  repeat_at,
}

-- The value of a record read at `p`, when the cursor stands at `q` afterwards: absent and of length
-- zero, or from `p + 2` on and before `q`.
abbrev pub ValueBefore : (p q len : ℕ) → Option ℕ → Type 0
ValueBefore p q len none = len ≡ 0
ValueBefore p q len (some v) = (v ≡ p + 2) × (v + len ≤ q)

abbrev pub Lands : (p end : ℕ) → TlvPad → ℕ → Option ℕ → Option ℕ → ℕ → TlvPad → Type 0
Lands p end pad len value none e d = ⊥
Lands p end pad len value (some q) e d =
    (p < q) × (q ≤ end) × (e ≡ end) × (d ≡ pad) × ValueBefore p q len value

-- What a call of `next` at offset `p` may answer: not a fault; false; or a record with the cursor
-- moved forward inside the region.
abbrev pub Advances : (p end : ℕ) → TlvPad → Next → Type 0
Advances p end pad none = ⊥
Advances p end pad (some none) = Unit {0}
Advances p end pad (some (some (r, c))) = Lands p end pad r.len r.value c.p c.end c.pad

module _ (mem : List ℕ) (p end : ℕ) (inside : end ≤ length mem) where
  next_value-Advances : (pad : TlvPad) (t : ℕ) → Advances p end pad (next_value mem p end pad t)
  unfolding next_value
  next_value-Advances pad t = ground (arith, byte_at-lt mem (p + 1))

  next_option_ipv4-Advances :
      (t : ℕ) → Advances p end TlvPad.ipv4_options (next_option_ipv4 mem p end t)
  unfolding next_option_ipv4
  next_option_ipv4-Advances t = ground (arith, byte_at-lt mem (p + 1))

  next_typed-Advances :
      (pad : TlvPad) (t : ℕ) → p < end → Advances p end pad (next_typed mem p end pad t)
  unfolding next_typed
  next_typed-Advances TlvPad.ipv6_options t h =
      ground (arith, next_value-Advances TlvPad.ipv6_options t)
  next_typed-Advances TlvPad.ipv4_options t h = ground (arith, next_option_ipv4-Advances t)
  next_typed-Advances TlvPad.raw t h = next_value-Advances TlvPad.raw t

  pub next_at-Advances : (pad : TlvPad) → Advances p end pad (next_at mem p end pad)
  unfolding next_at
  next_at-Advances pad = ground (arith, byte_at-lt mem p, next_typed-Advances pad (byte mem p))

-- The cursor never reads outside its region, and a record it delivers lies inside: for a cursor
-- whose `end` is inside the buffer, `next` does not fault, whatever the bytes are; where it answers
-- true the cursor has moved forward by at least a byte and not past `end`, with `end` and the padding
-- convention kept, and the record's value is absent with length 0, or starts two bytes after the old
-- position and ends before the new one.
pub next-Advances :
    (mem : List ℕ) (c : TlvCursor) (p : ℕ)
    → c.p ≡ some p
    → c.end ≤ length mem
    → Advances p c.end c.pad (next mem c)
unfolding next
next-Advances mem c p e inside = rw e (next_at-Advances mem p c.end inside c.pad)

-- `repeat_at` answers the i-th record of the array exactly when `i` is below the count and the whole
-- record lies before `end`.
pub repeat_at_iff :
    (base count stride end i q : ℕ)
    → (repeat_at (some base) count stride end i ≡ some q)
      ↔ ((i < count) × (base + i * stride + stride ≤ end) × (q ≡ base + i * stride))
unfolding repeat_at
repeat_at_iff base count stride end i q = (λ h. ground arith, λ h. ground arith)

-- The two answers of `next`, with the facts of `next-Advances` as equations.
pub record Forward (p : ℕ) (c : TlvCursor) (r : TlvRecord) (c' : TlvCursor) (q : ℕ) : Type 0 where
  pub at : c'.p ≡ some q
  pub later : p < q
  pub inside : q ≤ c.end
  pub same_end : c'.end ≡ c.end
  pub same_pad : c'.pad ≡ c.pad
  pub value_before : ValueBefore p q r.len r.value

abbrev pub Delivers : List ℕ → TlvCursor → ℕ → Type 0
Delivers mem c p =
    (r : TlvRecord) × (c' : TlvCursor) × (q : ℕ) × (next mem c ≡ some (some (r, c')))
    × Forward p c r c' q

Forward-of :
    (p : ℕ) (c : TlvCursor) (r : TlvRecord) (c' : TlvCursor) (o : Option ℕ)
    → c'.p ≡ o
    → Lands p c.end c.pad r.len r.value o c'.end c'.pad
    → (q : ℕ) × Forward p c r c' q
Forward-of p c r c' none e h = absurd h
Forward-of p c r c' (some q) e h = (
  q,
  record { at = e; later = h.0; inside = h.1; same_end = h.2; same_pad = h.3; value_before = h.4 },
)

Delivers-of :
    (mem : List ℕ) (c : TlvCursor) (p : ℕ) (n : Next)
    → next mem c ≡ n
    → Advances p c.end c.pad n
    → (next mem c ≡ some none) ⊎ Delivers mem c p
Delivers-of mem c p none e h = absurd h
Delivers-of mem c p (some none) e h = inl e
Delivers-of mem c p (some (some (r, c'))) e h =
    let (q, f) = Forward-of p c r c' c'.p refl h in inr (r, c', q, e, f)

pub next_cases :
    (mem : List ℕ) (c : TlvCursor) (p : ℕ)
    → c.p ≡ some p
    → c.end ≤ length mem
    → (next mem c ≡ some none) ⊎ Delivers mem c p
next_cases mem c p e inside = Delivers-of mem c p (next mem c) refl (next-Advances mem c p e inside)
