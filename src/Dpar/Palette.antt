-- ===== src/Dpar/Palette.antt =====
-- nanotins/include/nanotins/dpar_palette.hpp: the palette of parsers that rules can activate, and the
-- engine that joins it to the rules. A Kind of an application is a parameter; the built-in ones are
-- modelled.
pub mod Kinds
pub mod Dispatch
pub mod Measure
pub mod Run
use nanotins.Shared.{
  ℕ, zero, suc, ◌+◌, ◌-◌, List, [], ◌∷◌, length, replicate, Option, none, some, Bool, true, false,
}
use nanotins.Shared.{if◌then◌else◌, ◌==◌, ◌>>=◌}
use nanotins.Shared.Bits.{u32, u64}
use nanotins.Bulk.{push}
use nanotins.Tlv.{TlvRecord, TlvPad, TlvCursor}
use nanotins.Tlv
use nanotins.SomeipTlv.{MemberRecord, MemberCursor}
use nanotins.SomeipTlv
use nanotins.Dpar.{Rule}
use nanotins.Dpar.Texts.{codes}
use nanotins.Dpar.Catalog.{CatalogEntry, build_l2l3_catalog}
use nanotins.Dpar.Match.{EngineStats, zero_stat, dpar_match}
use nanotins.Dpar.Compile.{CompileResult, compile_rules}

-- A parser: its rows, its name, and `emit`, which runs over a region, appends rows and returns their
-- number.
pub record Kind : Type 1 where
  pub Row : Type 0
  pub name : List ℕ
  pub emit : List ℕ → (pid rule_id p end : ℕ) → List Row → Option (List Row × ℕ)

pub record SomeipTlvRow : Type 0 where
  pub packet_id : ℕ
  pub rule_id : ℕ
  pub member_index : ℕ
  pub data_id : ℕ
  pub wire_type : ℕ
  pub len : ℕ
  pub value_offset : ℕ

pub record RawTlvRow : Type 0 where
  pub packet_id : ℕ
  pub rule_id : ℕ
  pub index : ℕ
  pub type : ℕ
  pub len : ℕ

-- `r.value != nullptr ? r.value - p : 0`.
abbrev pub offset_from : ℕ → Option ℕ → ℕ
offset_from p none = 0
offset_from p (some v) = v - p

abbrev pub someip_row : (pid rule_id p idx : ℕ) → MemberRecord → SomeipTlvRow
someip_row pid rule_id p idx r = record {
  packet_id = pid;
  rule_id = rule_id;
  member_index = idx;
  data_id = r.data_id;
  wire_type = r.wire_type;
  len = r.len;
  value_offset = u32 (offset_from p r.value);
}

abbrev pub raw_row : (pid rule_id idx : ℕ) → TlvRecord → RawTlvRow
raw_row pid rule_id idx r = record {
  packet_id = pid;
  rule_id = rule_id;
  index = idx;
  type = r.type;
  len = r.len;
}

-- The loop of a Kind over the records of a cursor: `next` is its cursor's, `row` makes the row of a
-- record from its index, by reads that may fault.
unfoldable pub emit_loop {ℓ κ} :
    {C : Type ℓ} {A : Type κ} {R : Type 0}
    → ℕ
    → (next : C → Option (Option (A × C))) → (row : ℕ → A → Option R) → C
    → (idx n : ℕ) → List R
    → Option (List R × ℕ)
emit_loop zero next row c idx n out = none
emit_loop (suc fuel) next row c idx n out = next c >>= λ step. elim step [
  | none ↦ some (out, n)
  | some (a, c') ↦
      row idx a >>= λ r. emit_loop fuel next row c' (u32 (idx + 1)) (u64 (n + 1)) (push out r)
]

unfoldable pub emit_someip :
    List ℕ → (pid rule_id p end : ℕ) → List SomeipTlvRow → Option (List SomeipTlvRow × ℕ)
emit_someip mem pid rule_id p end out =
    emit_loop (suc (end - p)) (SomeipTlv.next mem) (λ idx r. some (someip_row pid rule_id p idx r))
      (record { p = some p; end = end }) 0 0 out

unfoldable pub emit_raw :
    List ℕ → (pid rule_id p end : ℕ) → List RawTlvRow → Option (List RawTlvRow × ℕ)
emit_raw mem pid rule_id p end out =
    emit_loop (suc (end - p)) (Tlv.next mem) (λ idx r. some (raw_row pid rule_id idx r))
      (record { p = some p; end = end; pad = TlvPad.raw }) 0 0 out

abbrev pub someip_tlv_kind : Kind
someip_tlv_kind = record { Row = SomeipTlvRow; name = codes "someip_tlv"; emit = emit_someip }

abbrev pub raw_tlv_kind : Kind
raw_tlv_kind = record { Row = RawTlvRow; name = codes "raw_tlv"; emit = emit_raw }

-- The tables of a palette, one for each Kind.
abbrev pub PaletteTables : List Kind → Type 0
PaletteTables [] = Unit
PaletteTables (k ∷ ks) = List k.Row × PaletteTables ks

abbrev pub empty_tables : (ks : List Kind) → PaletteTables ks
empty_tables [] = tt
empty_tables (k ∷ ks) = ([], empty_tables ks)

abbrev pub names : List Kind → List (List ℕ)
names [] = []
names (k ∷ ks) = k.name ∷ names ks

-- The chain of `kind == I` tests from the Kind at position `i` on.
unfoldable pub emit_at :
    (ks : List Kind) (i kind : ℕ) (mem : List ℕ) (pid rule_id p end : ℕ)
    → PaletteTables ks
    → Option (PaletteTables ks × ℕ)
emit_at [] i kind mem pid rule_id p end t = some (t, 0)
emit_at (k ∷ ks) i kind mem pid rule_id p end (t, ts) =
    let rest = emit_at ks (suc i) kind mem pid rule_id p end ts in
    if kind == i
    then (k.emit mem pid rule_id p end t >>= λ r. some ((r.0, ts), r.1))
    else (rest >>= λ r. some ((t, r.0), r.1))

abbrev pub default_palette : List Kind
default_palette = someip_tlv_kind ∷ raw_tlv_kind ∷ []

pub record DparEngine (ks : List Kind) : Type 0 where
  pub palette : PaletteTables ks
  pub stats : EngineStats
  pub catalog : List CatalogEntry
  pub rules : List Rule

abbrev pub zero_stats : EngineStats
zero_stats = record {
  packets_seen = 0;
  packets_matched_any = 0;
  rules_evaluated = 0;
  rows_emitted = 0;
  per_rule = [];
}

abbrev pub new_engine : (ks : List Kind) → DparEngine ks
new_engine ks = record {
  palette = empty_tables ks;
  stats = zero_stats;
  catalog = build_l2l3_catalog;
  rules = [];
}

-- `stats.per_rule.assign(n, RuleStat{})`.
abbrev pub assigned : ℕ → EngineStats → EngineStats
assigned n st = record {
  packets_seen = st.packets_seen;
  packets_matched_any = st.packets_matched_any;
  rules_evaluated = st.rules_evaluated;
  rows_emitted = st.rows_emitted;
  per_rule = replicate n zero_stat;
}

-- The callback that `run` hands to the matcher.
abbrev pub palette_emit :
    (ks : List Kind)
    → List ℕ
    → PaletteTables ks
    → (kind pid rule_id begin end : ℕ) → Option (PaletteTables ks × ℕ)
palette_emit ks pkt t kind pid rule_id b e = emit_at ks 0 kind pkt pid rule_id b e t

module _ {ks : List Kind} where
  unfoldable pub load_rules : DparEngine ks → (text : List ℕ) → CompileResult × DparEngine ks
  load_rules e text =
      let r = compile_rules text e.catalog (names ks) in
      if r.ok
      then (
        r,
        record {
          palette = e.palette;
          stats = assigned (length r.rules) e.stats;
          catalog = e.catalog;
          rules = r.rules;
        },
      )
      else (r, e)

  unfoldable pub run : DparEngine ks → (pkt : List ℕ) → (pid : ℕ) → Option (DparEngine ks)
  run e pkt pid = dpar_match (palette_emit ks pkt) pkt pid e.rules (e.palette, e.stats) >>= λ r.
      some (record { palette = r.0; stats = r.1; catalog = e.catalog; rules = e.rules })

  -- Packets one after the other, with their ids.
  unfoldable pub run_all : DparEngine ks → List (List ℕ × ℕ) → Option (DparEngine ks)
  run_all e [] = some e
  run_all e ((pkt, pid) ∷ ps) = run e pkt pid >>= λ e'. run_all e' ps
