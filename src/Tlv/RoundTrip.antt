-- ===== src/Tlv/RoundTrip.antt =====
-- tlv.hpp: the cursor reads back the IPv6 options that were laid out on the wire.
use nanotins.Shared.{ℕ, zero, suc, ◌+◌, ◌≤◌, ◌<◌, ◌≡◌, ◌≢◌, refl, ◌∙◌, subst, arith}
use nanotins.Shared.{none, some, List, [], ◌∷◌, ◌++◌, length, length-append}
use nanotins.Shared.Buffer.{byte_at-append}
use nanotins.Tlv.{
  TlvRecord, TlvPad, TlvCursor, next, next_at, next_typed, next_value, records_loop, tlv_records,
}
use mathlib.Core.List.{append_assoc}

-- RFC 8200: a lone Pad1 byte, or a type, the length of the data, and the data.
pub data Ipv6Option : Type 0 where
  pad1 : Ipv6Option
  option : ℕ → List ℕ → Ipv6Option

pub encode : Ipv6Option → List ℕ
encode pad1 = 0 ∷ []
encode (option t value) = t ∷ length value ∷ value

abbrev pub encode_all : List Ipv6Option → List ℕ
encode_all [] = []
encode_all (o ∷ os) = encode o ++ encode_all os

-- The record of an option laid out at offset `p`.
pub record_of : ℕ → Ipv6Option → TlvRecord
record_of p pad1 = record { type = 0; len = 0; value = none }
record_of p (option t value) = record { type = t; len = length value; value = some (p + 2) }

abbrev pub records_of : ℕ → List Ipv6Option → List TlvRecord
records_of p [] = []
records_of p (o ∷ os) = record_of p o ∷ records_of (p + length (encode o)) os

-- The type octet of an option other than Pad1 is not 0.
abbrev pub IsTyped : List Ipv6Option → Type 0
IsTyped [] = Unit {0}
IsTyped (pad1 ∷ os) = IsTyped os
IsTyped (option t value ∷ os) = (t ≢ 0) × IsTyped os

abbrev cursor : (p end : ℕ) → TlvCursor
cursor p end = record { p = some p; end = end; pad = TlvPad.ipv6_options }

next-encode :
    (front : List ℕ) (o : Ipv6Option) (back : List ℕ) (end : ℕ)
    → IsTyped (o ∷ [])
    → length front + length (encode o) ≤ end
    → next (front ++ (encode o ++ back)) (cursor (length front) end)
      ≡ some (some (record_of (length front) o, cursor (length front + length (encode o)) end))
unfolding next next_at next_typed next_value encode record_of
next-encode front pad1 back end typed h = ground (arith, byte_at-append front (0 ∷ back) 0)
next-encode front (option t value) back end typed h = ground (
  arith,
  byte_at-append front (t ∷ length value ∷ (value ++ back)) 0,
  byte_at-append front (t ∷ length value ∷ (value ++ back)) 1,
)

next-end : (mem : List ℕ) (end : ℕ) → next mem (cursor end end) ≡ some none
unfolding next next_at
next-end mem end = ground arith

length-encode : (o : Ipv6Option) → 1 ≤ length (encode o)
unfolding encode
length-encode pad1 = omega arith
length-encode (option t value) = omega arith

IsTyped-head :
    (o : Ipv6Option) (os : List Ipv6Option) → IsTyped (o ∷ os) → IsTyped (o ∷ []) × IsTyped os
IsTyped-head pad1 os h = (tt, h)
IsTyped-head (option t value) os h = ((h.0, tt), h.1)

records_loop_step :
    (fuel : ℕ) (mem : List ℕ) (c : TlvCursor) (r : TlvRecord) (c' : TlvCursor) (rs : List TlvRecord)
    → next mem c ≡ some (some (r, c'))
    → records_loop fuel mem c' ≡ some rs
    → records_loop (suc fuel) mem c ≡ some (r ∷ rs)
unfolding records_loop
records_loop_step fuel mem c r c' rs e h = rw e (rw h)

-- The loop from the end of `front` on; `mem` and `end` are given by equations.
records_loop-encode_all :
    (os : List Ipv6Option) (fuel : ℕ) (front back mem : List ℕ) (end : ℕ)
    → IsTyped os
    → length (encode_all os) < fuel
    → mem ≡ front ++ (encode_all os ++ back)
    → end ≡ length front + length (encode_all os)
    → records_loop fuel mem (cursor (length front) end) ≡ some (records_of (length front) os)
records_loop-encode_all os zero front back mem end typed h em ee = absurd (omega arith)
records_loop-encode_all [] (suc fuel) front back mem end typed h em ee =
    let here : end ≡ length front = omega arith in
    subst (λ p. records_loop (suc fuel) mem (cursor p end) ≡ some []) here
      (unfold records_loop in rw (next-end mem end))
records_loop-encode_all (o ∷ os) (suc fuel) front back mem end typed h em ee =
    records_loop_step fuel mem _ _ _ _
      (rw (em, append_assoc (encode o) (encode_all os) back)
        (next-encode front o (encode_all os ++ back) end (IsTyped-head o os typed).0
          (omega (arith, length-append (encode o) (encode_all os)))))
      (subst (λ p. records_loop fuel mem (cursor p end) ≡ some (records_of p os))
        (length-append front (encode o))
        (records_loop-encode_all os fuel (front ++ encode o) back mem end
          (IsTyped-head o os typed).1
          (omega (arith, length-append (encode o) (encode_all os), length-encode o))
          (em
            ∙ rw (
              append_assoc (encode o) (encode_all os) back,
              append_assoc front (encode o) (encode_all os ++ back),
            ))
          (omega
            (arith, length-append (encode o) (encode_all os), length-append front (encode o)))))

-- Round trip: wherever a list of IPv6 options whose types are not 0 is laid out in a buffer, the walk
-- over exactly those bytes delivers one record for each option, in order, with its type, its data
-- length, and the offset of its data; the bytes before and after play no part.
pub tlv_records-encode_all :
    (os : List Ipv6Option) (front back : List ℕ)
    → IsTyped os
    → tlv_records
        (front ++ (encode_all os ++ back))
        (length front)
        (length front + length (encode_all os))
        TlvPad.ipv6_options
      ≡ some (records_of (length front) os)
unfolding tlv_records
tlv_records-encode_all os front back typed =
    records_loop-encode_all os _ front back _ _ typed (omega arith) refl refl
