-- ===== src/Lldp/Kinds.antt =====
-- examples/lldp/lldp.hpp: the rows that LldpKind appends.
use nanotins.Shared.{
  ℕ, zero, suc, ◌+◌, ◌-◌, ◌*◌, ◌%◌, ◌^◌, ◌≤◌, ◌<◌, ◌≡◌, refl, sym, ap, ◌∙◌, arith,
}
use nanotins.Shared.{List, [], ◌∷◌, ◌++◌, length, Option, none, some}
use nanotins.Shared.Bits.{u32, u64}
use nanotins.Bulk.{push}
use nanotins.Bulk.Layout.{push-append}
use mathlib.Core.List.{append_assoc, append-nil}
use nanotins.Dpar.Palette.{emit_loop}
use nanotins.Dpar.Palette.Kinds.{IsKind, emit_loop-counted}
use nanotins.Lldp.{LldpRecord, LldpCursor, next, lldp_row, LldpTlvRow, emit_lldp, lldp_kind}
use nanotins.Lldp.Rows.{IsRow, AreRows, Delivers, lldp_row-IsRow}
use nanotins.Lldp.Cursor.{next-StepOf, lldp_row-IsRead, ValueInside, ValueAt, StepOf}
use nanotins.Lldp.Sparse.{Gives-some}

-- A record that the cursor has delivered has its value inside the region.
value-inside :
    (mem : List ℕ) (p end q : ℕ) (r : LldpRecord) (o : Option ℕ)
    → ValueAt p q r.len o
    → q ≤ end
    → end ≤ length mem
    → ValueInside mem r o
value-inside mem p end q r none (empty, next) inside room = empty
value-inside mem p end q r (some v) (here, next) inside room = omega arith

-- What a loop with `fuel` steps does from a cursor at `q` on.
abbrev Emits : List ℕ → (pid rule_id p fuel : ℕ) → Type 0
Emits mem pid rule_id p fuel =
    (c : LldpCursor) (q idx n : ℕ) (out : List LldpTlvRow)
    → c.p ≡ some q
    → q ≤ c.end
    → c.end ≤ length mem
    → c.end - q < fuel
    → n < 2 ^ 64
    → (rs : List LldpRecord) × (rows : List LldpTlvRow) × Delivers mem c rs
      × (emit_loop fuel (next mem) (lldp_row mem pid rule_id p) c idx n out
          ≡ some (out ++ rows, (n + length rows) % 2 ^ 64))
      × AreRows mem pid rule_id p idx rs rows
      × (2 * length rows ≤ c.end - q)

emit_loop-step :
    (mem : List ℕ) (pid rule_id p fuel : ℕ)
    → Emits mem pid rule_id p fuel
    → Emits mem pid rule_id p (suc fuel)
unfolding emit_loop
emit_loop-step mem pid rule_id p fuel rest c q idx n out at order inside room small =
    let (o, step, taken) = next-StepOf mem c q at inside in go o step taken
  where
    Result : Type 0
    Result =
        (rs : List LldpRecord) × (rows : List LldpTlvRow) × Delivers mem c rs
        × (emit_loop (suc fuel) (next mem) (lldp_row mem pid rule_id p) c idx n out
            ≡ some (out ++ rows, (n + length rows) % 2 ^ 64))
        × AreRows mem pid rule_id p idx rs rows
        × (2 * length rows ≤ c.end - q)

    done : n ≡ (n + 0) % 2 ^ 64
    done = omega arith

    more : (k : ℕ) → (u64 (n + 1) + k) % 2 ^ 64 ≡ (n + suc k) % 2 ^ 64
    more k = omega arith

    go : (o : Option (LldpRecord × LldpCursor)) → next mem c ≡ some o → StepOf q c.end o → Result
    go none step taken =
        ([], [], step, rw step (λ i. some (sym (append-nil out) i, done i)), tt, omega arith)
    go (some (r, c')) step (q', s) =
        let value = value-inside mem q c.end q' r r.value s.value_at s.inside inside in
        let (row, made) = lldp_row-IsRead mem pid rule_id p idx r value in
        let is_row =
          Gives-some (IsRow mem pid rule_id p idx r) (lldp_row mem pid rule_id p idx r) row
            (lldp_row-IsRow mem pid rule_id p idx r s.closed value) made in
        let end = s.same_end in
        let later = s.later in
        let within = s.inside in
        let (rs, rows, more_tlvs, run, are, few) =
          rest c' q' (u32 (idx + 1)) (u64 (n + 1)) (push out row) s.at (omega arith) (omega arith)
            (omega arith) (omega arith) in
        (
          r ∷ rs,
          row ∷ rows,
          (c', step, more_tlvs),
          rw step (
              rw made (
                run ∙ λ i. some (
                  (ap (λ o. o ++ rows) (push-append out row) ∙ append_assoc out (row ∷ []) rows) i,
                  more (length rows) i,
                ))),
          (is_row, are),
          omega arith,
        )

emit_loop-rows : (mem : List ℕ) (pid rule_id p fuel : ℕ) → Emits mem pid rule_id p fuel
emit_loop-rows mem pid rule_id p zero =
    λ c q idx n out at order inside room small. absurd (omega arith)
emit_loop-rows mem pid rule_id p (suc fuel) =
    emit_loop-step mem pid rule_id p fuel (emit_loop-rows mem pid rule_id p fuel)

-- LldpKind over any region inside a buffer: it returns, reads no byte outside the buffer, appends
-- exactly one row for each TLV that its cursor delivers until it stops, in order, at most one for
-- every two bytes of the region, and returns their number, modulo 2^64. A row has the packet's and
-- the rule's id, its index in the frame, modulo 2^32, its TLV's type, which is not End, and length,
-- the offset of the value from the region's start, modulo 2^16, or 0 for an empty one, and the
-- value's first 32 bytes, with zeros behind a shorter one; and the columns of the time to live, of
-- the capabilities and of the management address are 0 in a row of another type.
pub emit_lldp-rows :
    (mem : List ℕ) (pid rule_id p end : ℕ) (out : List LldpTlvRow)
    → p ≤ end
    → end ≤ length mem
    → (rs : List LldpRecord) × (rows : List LldpTlvRow) × Delivers mem
        (record { p = some p; end = end })
        rs
      × (emit_lldp mem pid rule_id p end out ≡ some (out ++ rows, length rows % 2 ^ 64))
      × AreRows mem pid rule_id p 0 rs rows
      × (2 * length rows ≤ end - p)
unfolding emit_lldp
emit_lldp-rows mem pid rule_id p end out order inside =
    let (rs, rows, tlvs, run, are, few) =
      emit_loop-rows mem pid rule_id p (suc (end - p)) (record { p = some p; end = end }) p 0 0 out
        refl order inside (omega arith) (omega arith) in
    (rs, rows, tlvs, run ∙ (λ i. some (out ++ rows, start (length rows) i)), are, few)
  where
    start : (k : ℕ) → (0 + k) % 2 ^ 64 ≡ k % 2 ^ 64
    start k = omega arith

pub lldp-IsKind : IsKind lldp_kind
unfolding emit_lldp
lldp-IsKind = record {
  total = λ mem pid rule_id p end out order inside.
      let (rs, rows, tlvs, run, are, few) = emit_lldp-rows mem pid rule_id p end out order inside in
      (_, _, run);
  counted = λ mem pid rule_id p end out out' n e.
      let c = emit_loop-counted (suc (end - p)) (next mem) _ _ 0 0 out out' n e in omega (arith, c);
}
