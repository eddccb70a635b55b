-- ===== src/Pcap/Columns.antt =====
-- pcap_blocks.hpp, phase B: the loop that parses packet blocks into pre-sized columns. The columns
-- are the list of their rows, and a row's fields are written at one index.
use nanotins.Shared.{
  ℕ, suc, ◌+◌, ◌≤◌, ◌≡◌, refl, sym, ap, ◌∙◌, arith, List, [], ◌∷◌, ◌++◌, length, map,
}
use nanotins.Shared.{
  Option, none, some, false, ltb, length-append, if◌then◌else◌, ◌>>=◌, write_at, write_at-middle,
}
use nanotins.Pcap.{BlockRef, EpbView}
use nanotins.Pcap.Parse.{parse_epb}
use mathlib.Core.List.{append_assoc, append-nil}

pub record EpbRow : Type 0 where
  pub interface_id : ℕ
  pub ts_raw : ℕ
  pub caplen : ℕ
  pub origlen : ℕ
  pub payload_off : ℕ
  pub payload_size : ℕ
  pub epb_flags : ℕ

pub data BulkError : Type 0 where
  not_sized : BulkError
  failed_at : ℕ → BulkError

abbrev pub row_of : EpbView → EpbRow
row_of v = record {
  interface_id = v.interface_id;
  ts_raw = v.ts_raw;
  caplen = v.caplen;
  origlen = v.origlen;
  payload_off = v.payload_file_offset;
  payload_size = v.caplen;
  epb_flags = v.epb_flags;
}

abbrev pub Parsed : Type 0
Parsed = List EpbRow × Option BulkError

pub epbs_loop : List ℕ → List BlockRef → (i : ℕ) → List EpbRow → Option Parsed
epbs_loop file [] i out = some (out, none)
epbs_loop file (ref ∷ refs) i out = parse_epb file ref >>= λ parsed. elim parsed [
  | none ↦ some (out, some (failed_at i))
  | some v ↦ write_at out i (row_of v) >>= λ out'. epbs_loop file refs (i + 1) out'
]

pub parse_epbs_bulk : List ℕ → List BlockRef → List EpbRow → Option Parsed
parse_epbs_bulk file epbs out =
    if ltb (length out) (length epbs) then some (out, some not_sized) else epbs_loop file epbs 0 out

-- The views of blocks that parse.
abbrev pub AreViews : List ℕ → List BlockRef → List EpbView → Type 0
AreViews file [] [] = Unit {0}
AreViews file [] (v ∷ vs) = ⊥
AreViews file (r ∷ rs) [] = ⊥
AreViews file (r ∷ rs) (v ∷ vs) = (parse_epb file r ≡ some (some v)) × AreViews file rs vs

-- The loop over blocks that parse, with others behind them.
epbs_loop-append :
    (file : List ℕ) (good more : List BlockRef) (views : List EpbView) (done old rest : List EpbRow)
    → AreViews file good views
    → length old ≡ length good
    → epbs_loop file (good ++ more) (length done) (done ++ (old ++ rest))
      ≡ epbs_loop file more (length (done ++ map row_of views)) (done ++ (map row_of views ++ rest))
unfolding epbs_loop
epbs_loop-append file [] more [] done [] rest h e =
    ap (λ d. epbs_loop file more (length d) (done ++ rest)) (sym (append-nil done))
epbs_loop-append file [] more [] done (x ∷ old) rest h e = absurd (omega arith)
epbs_loop-append file [] more (v ∷ vs) done old rest h e = absurd h
epbs_loop-append file (r ∷ good) more [] done old rest h e = absurd h
epbs_loop-append file (r ∷ good) more (v ∷ vs) done [] rest h e = absurd (omega arith)
epbs_loop-append file (r ∷ good) more (v ∷ vs) done (x ∷ old) rest (p, h) e =
    let row = row_of v in
    let next : length done + 1 ≡ length (done ++ (row ∷ [])) =
      omega (arith, length-append done (row ∷ [])) in
    let shift = append_assoc done (row ∷ []) (old ++ rest) in
    let back = append_assoc done (row ∷ []) (map row_of vs ++ rest) in
    let front = append_assoc done (row ∷ []) (map row_of vs) in
    rw p (
      rw (write_at-middle done x row (old ++ rest) (length done) refl) (
        rw next (
          rw⁻¹ shift (
            epbs_loop-append file good more vs (done ++ (row ∷ [])) old rest h (omega arith)
            ∙ rw back (rw front refl)))))

-- The bulk parse of blocks that all parse, into columns that are sized for them, writes the row of
-- each block at its index and leaves the rows behind, without an error.
pub parse_epbs_bulk-views :
    (file : List ℕ) (epbs : List BlockRef) (views : List EpbView) (old rest : List EpbRow)
    → AreViews file epbs views
    → length old ≡ length epbs
    → parse_epbs_bulk file epbs (old ++ rest) ≡ some (map row_of views ++ rest, none)
unfolding parse_epbs_bulk epbs_loop
parse_epbs_bulk-views file epbs views old rest h e =
    let sized : ltb (length (old ++ rest)) (length epbs) ≡ false =
      ground (arith, length-append old rest) in
    rw sized (
      ap (λ l. epbs_loop file l 0 (old ++ rest)) (sym (append-nil epbs))
      ∙ epbs_loop-append file epbs [] views [] old rest h e)

-- Where a block behind blocks that parse does not parse, the bulk parse into columns that are sized
-- for all the blocks, those behind it included, stops there: the error names its index, the rows of
-- the blocks before it are written, and the rows from its index on are left as they were.
pub parse_epbs_bulk-failed_at :
    (file : List ℕ) (good : List BlockRef) (bad : BlockRef) (more : List BlockRef)
    (views : List EpbView) (old rest : List EpbRow)
    → AreViews file good views
    → parse_epb file bad ≡ some none
    → length old ≡ length good
    → suc (length more) ≤ length rest
    → parse_epbs_bulk file (good ++ (bad ∷ more)) (old ++ rest)
      ≡ some (map row_of views ++ rest, some (failed_at (length (map row_of views))))
unfolding parse_epbs_bulk epbs_loop
parse_epbs_bulk-failed_at file good bad more views old rest h fails e room =
    let sized : ltb (length (old ++ rest)) (length (good ++ (bad ∷ more))) ≡ false =
      ground (arith, length-append old rest, length-append good (bad ∷ more)) in
    rw sized (epbs_loop-append file good (bad ∷ more) views [] old rest h e ∙ rw fails refl)
