-- ===== src/Tests/PaletteRuns.antt =====
-- The palette: the theorems at an engine with the default Kinds, and an LLDP frame.
use nanotins.Shared.{
  refl, ℕ, ◌-◌, ◌*◌, ◌%◌, ◌^◌, ◌≤◌, ◌≡◌, arith, List, [], ◌∷◌, ◌++◌, length, some, map, take, All,
  Bool, true, ltb, ◌&&◌, ◌<◌, Bool-cases, inl, inr,
}
use nanotins.Dpar.Texts.{codes, lines_from}
use nanotins.Dpar.Stats.{total_rows}
use nanotins.Dpar.Palette.{default_palette, DparEngine, new_engine, load_rules, run_all}
use nanotins.Dpar.Palette.Kinds.{someip-IsKind, raw-IsKind}
use nanotins.Dpar.Palette.Dispatch.{row_count}
use nanotins.Dpar.Palette.Run
use nanotins.Lldp.{LldpRecord, LldpTlvRow, emit_lldp, lldp_palette, head_size}
use nanotins.Lldp.Ndjson.{dump_ndjson, ascii}
use nanotins.Lldp.Ndjson.Lines
use nanotins.Lldp.Ndjson.Lines.{line_of, Unquoted}
use nanotins.Lldp.Ndjson.Texts.{IsText}
use nanotins.Lldp.Kinds
use nanotins.Lldp.Wire.{LldpTlv}
use nanotins.Lldp.Wire.Rows.{row_for}
use nanotins.Lldp.RoundTrip
use nanotins.Lldp.RoundTrip.{encode_frame, rows_for}
use nanotins.Lldp.Rows.{AreRows, Delivers}
use nanotins.Lldp.Kinds.{lldp-IsKind}

abbrev raw_rule : List ℕ
raw_rule = codes "eth.ethertype == 0x1234 => raw_tlv eth_payload"

-- A frame with two raw records behind its header, and a frame that is cut off.
abbrev frames : List (List ℕ × ℕ)
frames =
    (1 ∷ 1 ∷ 1 ∷ 1 ∷ 1 ∷ 1 ∷ 2 ∷ 2 ∷ 2 ∷ 2 ∷ 2 ∷ 2 ∷ 0x12 ∷ 0x34 ∷ 7 ∷ 1 ∷ 9 ∷ 8 ∷ 0 ∷ [], 0)
    ∷ (1 ∷ 1 ∷ 1 ∷ [], 1)
    ∷ []

run_all-counted_example :
    (e : DparEngine default_palette) × (run_all
        (load_rules (new_engine default_palette) raw_rule).1
        frames
      ≡ some e)
    × (row_count default_palette e.palette % 2 ^ 64 ≡ (e.stats).rows_emitted)
    × (total_rows (e.stats).per_rule % 2 ^ 64 ≡ (e.stats).rows_emitted)
run_all-counted_example =
    Run.run_all-counted default_palette raw_rule frames (someip-IsKind, (raw-IsKind, tt))
      (omega arith)

abbrev lldp_rule : List ℕ
lldp_rule = codes "eth.ethertype == 0x88CC => lldp eth_payload"

lldp_counted :
    (e : DparEngine lldp_palette) × (run_all
        (load_rules (new_engine lldp_palette) lldp_rule).1
        frames
      ≡ some e)
    × (row_count lldp_palette e.palette % 2 ^ 64 ≡ (e.stats).rows_emitted)
    × (total_rows (e.stats).per_rule % 2 ^ 64 ≡ (e.stats).rows_emitted)
lldp_counted = Run.run_all-counted lldp_palette lldp_rule frames (lldp-IsKind, tt) (omega arith)

-- A chassis id, a time to live, a management address and the End TLV.
abbrev lldpdu : List ℕ
lldpdu =
    0x02
    ∷ 3
    ∷ 4
    ∷ 65
    ∷ 66
    ∷ (0x06
        ∷ 2
        ∷ 0
        ∷ 120
        ∷ (0x10 ∷ 11 ∷ 5 ∷ 1 ∷ 10 ∷ 0 ∷ 0 ∷ 1 ∷ 2 ∷ 0 ∷ 0 ∷ 0 ∷ (7 ∷ 0 ∷ 0 ∷ 0 ∷ [])))

emit_lldp-rows_example :
    (rs : List LldpRecord) × (rows : List LldpTlvRow) × Delivers lldpdu
      (record { p = some 0; end = 24 })
      rs
    × (emit_lldp lldpdu 3 1 0 24 [] ≡ some ([] ++ rows, length rows % 2 ^ 64))
    × AreRows lldpdu 3 1 0 0 rs rows
    × (2 * length rows ≤ 24 - 0)
emit_lldp-rows_example = Kinds.emit_lldp-rows lldpdu 3 1 0 24 [] (omega arith) (omega arith)

abbrev tlvs : List LldpTlv
tlvs =
    LldpTlv.chassis_id 4 (65 ∷ 66 ∷ [])
    ∷ LldpTlv.ttl 120 []
    ∷ LldpTlv.mgmt_addr 1 (10 ∷ 0 ∷ 0 ∷ 1 ∷ []) 2 7 (0 ∷ [])
    ∷ LldpTlv.other 5 []
    ∷ []

emit_lldp-encode_frame_example :
    emit_lldp ((1 ∷ 2 ∷ []) ++ (encode_frame tlvs ++ (9 ∷ []))) 3 1 2 33 []
    ≡ some ([] ++ rows_for 3 1 0 0 tlvs, 4 % 2 ^ 64)
emit_lldp-encode_frame_example =
    RoundTrip.emit_lldp-encode_frame (1 ∷ 2 ∷ []) (9 ∷ []) tlvs 3 1 33 []
      (
        (tt, omega arith),
        (
          (omega arith, omega arith),
          (
            (omega arith, omega arith),
            (
              (
                (
                  omega arith,
                  (λ e. omega arith),
                  (λ e. omega arith),
                  (λ e. omega arith),
                  (λ e. omega arith),
                  (λ e. omega arith),
                  (λ e. omega arith),
                ),
                omega arith,
              ),
              tt,
            ),
          ),
        ),
      )
      (omega arith)

-- The rows of a time to live, and of an empty name.
abbrev ttl_row : LldpTlvRow
ttl_row = row_for 3 1 0 2 (LldpTlv.ttl 120 [])

abbrev name_row : LldpTlvRow
name_row = row_for 3 1 1 6 (LldpTlv.other 5 [])

abbrev table : List LldpTlvRow
table = ttl_row ∷ name_row ∷ []

abbrev are_bytes : List ℕ → Bool
are_bytes [] = true
are_bytes (b ∷ bs) = ltb b 256 && are_bytes bs

bytes : (bs : List ℕ) → are_bytes bs ≡ true → All (λ b. b < 256) bs
bytes [] h = tt
bytes (b ∷ bs) h = elim (Bool-cases (ltb b 256)) [
  | inl small ↦ (ground arith, bytes bs (rw small at h))
  | inr big ↦ cc (rw big at h)
]

dump_ndjson-lines_example :
    (lines_from [] (dump_ndjson [] table) ≡ map line_of table ++ ([] ∷ []))
    × All (λ r. IsText (line_of r)) table
    × All (λ r. All Unquoted (ascii (take (head_size r.tlv_length) r.value_head))) table
dump_ndjson-lines_example =
    Lines.dump_ndjson-lines table
      (bytes ttl_row.value_head refl, (bytes name_row.value_head refl, tt))
