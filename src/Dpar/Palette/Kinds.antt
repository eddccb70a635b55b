-- ===== src/Dpar/Palette/Kinds.antt =====
-- dpar_palette.hpp: the built-in Kinds append rows, and return their number.
use nanotins.Shared.{
  ℕ, zero, suc, ◌+◌, ◌-◌, ◌%◌, ◌^◌, ◌<◌, ◌≤◌, ◌≡◌, refl, sym, ap, ◌∙◌, arith, List, [], ◌∷◌, ◌++◌,
}
use nanotins.Shared.{
  length, length-append, Option, none, some, ◌>>=◌, Option-cases, inl, inr, >>=-eq-some,
}
use nanotins.Shared.Bits.{u32, u64}
use mathlib.Core.List.{append_assoc, append-nil}
use nanotins.Bulk.{push}
use nanotins.Bulk.Layout.{push-append}
use nanotins.Tlv.{TlvRecord, TlvPad, TlvCursor, records_loop, tlv_records}
use nanotins.Tlv
use nanotins.Tlv.Walk.{tlv_count-records}
use nanotins.SomeipTlv.{MemberRecord, MemberCursor, members_loop, someip_tlv_members}
use nanotins.SomeipTlv
use nanotins.SomeipTlv.Walk.{someip_tlv_count-members}
use nanotins.Dpar.Palette.{
  Kind, someip_row, raw_row, emit_loop, emit_someip, emit_raw, someip_tlv_kind, raw_tlv_kind,
}

-- The rows of the records, each with its index, modulo 2^32.
abbrev pub indexed {ℓ} : {A : Type ℓ} {R : Type 0} → (ℕ → A → R) → ℕ → List A → List R
indexed row idx [] = []
indexed row idx (a ∷ rs) = row idx a ∷ indexed row (u32 (idx + 1)) rs

pub length-indexed {ℓ} :
    {A : Type ℓ} {R : Type 0} (row : ℕ → A → R) (idx : ℕ) (rs : List A)
    → length (indexed row idx rs) ≡ length rs
length-indexed row idx [] = refl
length-indexed row idx (a ∷ rs) = ap suc (length-indexed row (u32 (idx + 1)) rs)

-- The records that a cursor delivers.
drain {ℓ κ} : {C : Type ℓ} {A : Type κ} → ℕ → (C → Option (Option (A × C))) → C → Option (List A)
drain zero next c = none
drain (suc fuel) next c = next c >>= λ step. elim step [
  | none ↦ some []
  | some (a, c') ↦ drain fuel next c' >>= λ rs. some (a ∷ rs)
]

drain-records_loop :
    (fuel : ℕ) (mem : List ℕ) (c : TlvCursor)
    → drain fuel (Tlv.next mem) c ≡ records_loop fuel mem c
unfolding drain records_loop
drain-records_loop zero mem c = refl
drain-records_loop (suc fuel) mem c = elim (Option-cases (Tlv.next mem c)) [
  | inl e ↦ rw e refl
  | inr (none, e) ↦ rw e refl
  | inr (some (r, c'), e) ↦ rw e (rw (drain-records_loop fuel mem c') refl)
]

drain-members_loop :
    (fuel : ℕ) (mem : List ℕ) (c : MemberCursor)
    → drain fuel (SomeipTlv.next mem) c ≡ members_loop fuel mem c
unfolding drain members_loop
drain-members_loop zero mem c = refl
drain-members_loop (suc fuel) mem c = elim (Option-cases (SomeipTlv.next mem c)) [
  | inl e ↦ rw e refl
  | inr (none, e) ↦ rw e refl
  | inr (some (r, c'), e) ↦ rw e (rw (drain-members_loop fuel mem c') refl)
]

-- A Kind's loop appends the rows of the records that its cursor delivers, and counts them.
emit_loop-indexed {ℓ κ} :
    {C : Type ℓ} {A : Type κ} {R : Type 0} (fuel : ℕ) (next : C → Option (Option (A × C)))
    (row : ℕ → A → R) (c : C) (idx n : ℕ) (out : List R) (rs : List A)
    → n < 2 ^ 64
    → drain fuel next c ≡ some rs
    → emit_loop fuel next (λ idx a. some (row idx a)) c idx n out
      ≡ some (out ++ indexed row idx rs, (n + length rs) % 2 ^ 64)
unfolding emit_loop drain
emit_loop-indexed zero next row c idx n out rs small e = cc
emit_loop-indexed (suc fuel) next row c idx n out rs small e = elim (Option-cases (next c)) [
  | inl f ↦ cc (rw f at e)
  | inr (none, f) ↦
      let empty : rs ≡ [] = cc (rw f at e) in
      rw f (rw empty (λ i. some (sym (append-nil out) i, count i)))
  | inr (some (a, c'), f) ↦
      let (rest, e1, e2) = >>=-eq-some (drain fuel next c') (λ rs. some (a ∷ rs)) (rw f at e) in
      let split : rs ≡ a ∷ rest = cc e2 in
      rw f (
        rw split (
          rw (push-append out (row idx a)) (
            emit_loop-indexed fuel next row c' (u32 (idx + 1)) (u64 (n + 1))
              (out ++ (row idx a ∷ [])) rest (omega arith) e1
            ∙ λ i. some (
              append_assoc out (row idx a ∷ []) (indexed row (u32 (idx + 1)) rest) i,
              more (length rest) i,
            ))))
]
  where
    count : n ≡ (n + 0) % 2 ^ 64
    count = omega arith

    more : (k : ℕ) → (u64 (n + 1) + k) % 2 ^ 64 ≡ (n + suc k) % 2 ^ 64
    more k = omega arith

-- Whatever the loop delivers, the count is the number of rows that it appended, modulo 2^64.
pub emit_loop-counted {ℓ κ} :
    {C : Type ℓ} {A : Type κ} {R : Type 0} (fuel : ℕ) (next : C → Option (Option (A × C)))
    (row : ℕ → A → Option R) (c : C) (idx n : ℕ) (out out' : List R) (n' : ℕ)
    → emit_loop fuel next row c idx n out ≡ some (out', n')
    → u64 (length out' + n) ≡ u64 (length out + n')
unfolding emit_loop
emit_loop-counted zero next row c idx n out out' n' e = cc
emit_loop-counted (suc fuel) next row c idx n out out' n' e = elim (Option-cases (next c)) [
  | inl f ↦ cc (rw f at e)
  | inr (none, f) ↦
      let same : out ≡ out' = cc (rw f at e) in
      let count : n ≡ n' = cc (rw f at e) in omega (arith, ap length same, count)
  | inr (some (a, c'), f) ↦
      let (r, made, rest) = >>=-eq-some (row idx a) _ (rw f at e) in
      let more =
        emit_loop-counted fuel next row c' (u32 (idx + 1)) (u64 (n + 1)) (push out r) out' n'
          rest in
      let grown = ap length (push-append out r) in
      omega (arith, more, grown, length-append out (r ∷ []))
]

-- A Kind that the palette can hold: over any region inside the buffer its `emit` returns, and the
-- number that it returns is the number of rows that it appended, modulo 2^64.
pub record IsKind (k : Kind) : Type 0 where
  pub total :
      (mem : List ℕ) (pid rule_id p end : ℕ) (out : List k.Row)
      → p ≤ end
      → end ≤ length mem
      → (out' : List k.Row) × (n : ℕ) × (k.emit mem pid rule_id p end out ≡ some (out', n))
  pub counted :
      (mem : List ℕ) (pid rule_id p end : ℕ) (out out' : List k.Row) (n : ℕ)
      → k.emit mem pid rule_id p end out ≡ some (out', n)
      → u64 (length out') ≡ u64 (length out + n)

-- The built-in Kind of SOME/IP TLV: over any region inside the buffer it returns and appends one row
-- for each member that someip_tlv_cursor delivers, in order, with the packet's and the rule's id, its
-- index modulo 2^32, its data id, wire type and length, and the offset of its value from the region's
-- start, 0 where it has none; and it returns their number, modulo 2^64.
pub emit_someip-members :
    (mem : List ℕ) (pid rule_id p end : ℕ) (out : List someip_tlv_kind.Row)
    → end ≤ length mem
    → (rs : List MemberRecord) × (someip_tlv_members mem p end ≡ some rs)
      × (emit_someip mem pid rule_id p end out
          ≡ some (out ++ indexed (someip_row pid rule_id p) 0 rs, length rs % 2 ^ 64))
unfolding emit_someip someip_tlv_members
emit_someip-members mem pid rule_id p end out inside =
    let (rs, e, counted, short, within) = someip_tlv_count-members mem p end inside in
    (
      rs,
      e,
      emit_loop-indexed (suc (end - p)) (SomeipTlv.next mem) (someip_row pid rule_id p) _ 0 0 out rs
            (omega arith) (drain-members_loop (suc (end - p)) mem _ ∙ e)
          ∙ λ i. some (out ++ indexed (someip_row pid rule_id p) 0 rs, start (length rs) i),
    )
  where
    start : (k : ℕ) → (0 + k) % 2 ^ 64 ≡ k % 2 ^ 64
    start k = omega arith

pub emit_raw-records :
    (mem : List ℕ) (pid rule_id p end : ℕ) (out : List raw_tlv_kind.Row)
    → end ≤ length mem
    → (rs : List TlvRecord) × (tlv_records mem p end TlvPad.raw ≡ some rs)
      × (emit_raw mem pid rule_id p end out
          ≡ some (out ++ indexed (raw_row pid rule_id) 0 rs, length rs % 2 ^ 64))
unfolding emit_raw tlv_records
emit_raw-records mem pid rule_id p end out inside =
    let (rs, e, counted, short, within) = tlv_count-records mem p end TlvPad.raw inside in
    (
      rs,
      e,
      emit_loop-indexed (suc (end - p)) (Tlv.next mem) (raw_row pid rule_id) _ 0 0 out rs
            (omega arith) (drain-records_loop (suc (end - p)) mem _ ∙ e)
          ∙ λ i. some (out ++ indexed (raw_row pid rule_id) 0 rs, start (length rs) i),
    )
  where
    start : (k : ℕ) → (0 + k) % 2 ^ 64 ≡ k % 2 ^ 64
    start k = omega arith

pub someip-IsKind : IsKind someip_tlv_kind
unfolding emit_someip
someip-IsKind = record {
  total = λ mem pid rule_id p end out order inside.
      let (rs, e, run) = emit_someip-members mem pid rule_id p end out inside in (_, _, run);
  counted = λ mem pid rule_id p end out out' n e.
      let c = emit_loop-counted (suc (end - p)) (SomeipTlv.next mem) _ _ 0 0 out out' n e in
      omega (arith, c);
}

pub raw-IsKind : IsKind raw_tlv_kind
unfolding emit_raw
raw-IsKind = record {
  total = λ mem pid rule_id p end out order inside.
      let (rs, e, run) = emit_raw-records mem pid rule_id p end out inside in (_, _, run);
  counted = λ mem pid rule_id p end out out' n e.
      let c = emit_loop-counted (suc (end - p)) (Tlv.next mem) _ _ 0 0 out out' n e in
      omega (arith, c);
}
