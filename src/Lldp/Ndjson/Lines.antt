-- ===== src/Lldp/Ndjson/Lines.antt =====
-- examples/lldp/lldp.hpp: the NDJSON dump has a line of printable ASCII for each row.
use nanotins.Shared.{ℕ, ◌<◌, ◌≡◌, ◌≢◌, refl, sym, ap, ◌∙◌, arith, List, [], ◌∷◌, ◌++◌, map}
use nanotins.Shared.{
  Bool, true, false, ◌==◌, take, leb, ltb, ◌&&◌, if◌then◌else◌, All, Bool-cases, inl, inr,
}
use mathlib.Core.List.{append_assoc, append-nil}
use nanotins.Dpar.Texts.{codes, lines_from}
use nanotins.Lldp.{LldpTlvRow, head_size}
use nanotins.Lldp.Ndjson.{ascii, row_to_json, dump_ndjson, printable}
use nanotins.Lldp.Ndjson.Rows.{row_to_json-Appends}
use nanotins.Lldp.Ndjson.Texts.{is_text, IsText, literal, IsText-append}

-- The line of a row.
abbrev pub line_of : LldpTlvRow → List ℕ
line_of row = codes "{\"table\":\"lldp\",\"row\":" ++ (row_to_json [] row ++ codes "}")

lines_from-text :
    (cur text rest : List ℕ)
    → is_text text ≡ true
    → lines_from cur (text ++ (10 ∷ rest)) ≡ (cur ++ text) ∷ lines_from [] rest
lines_from-text cur [] rest h = ap (λ l. l ∷ lines_from [] rest) (sym (append-nil cur))
lines_from-text cur (c ∷ text) rest h = elim (Bool-cases (leb 0x20 c && ltb c 0x7F)) [
  | inl clean ↦
      let other : (c == 10) ≡ false = ground arith in
      rw (other, lines_from)
        (lines_from-text (cur ++ (c ∷ [])) text rest (rw clean at h)
          ∙ ap (λ l. l ∷ lines_from [] rest) (append_assoc cur (c ∷ []) text))
  | inr bad ↦ cc (rw bad at h)
]

-- The lines of rows, each ended by a newline.
abbrev ended : List LldpTlvRow → List ℕ
ended [] = []
ended (row ∷ rows) = line_of row ++ (10 ∷ ended rows)

row_to_json-append :
    (out : List ℕ) (r : LldpTlvRow)
    → All (λ b. b < 256) r.value_head
    → row_to_json out r ≡ out ++ row_to_json [] r
row_to_json-append out r h =
    let (text, e, printed) = row_to_json-Appends r h in e out ∙ ap (λ t. out ++ t) (sym (e []))

line_of-IsText : (r : LldpTlvRow) → All (λ b. b < 256) r.value_head → IsText (line_of r)
line_of-IsText r h =
    let (text, e, printed) = row_to_json-Appends r h in
    rw (e []) (
      IsText-append (codes "{\"table\":\"lldp\",\"row\":") _ (literal refl)
        (IsText-append text (codes "}") printed (literal refl)))

-- Appending in the order of the dump, and the line with its newline.
regroup :
    (out a t b rest : List ℕ)
    → (((out ++ a) ++ t) ++ (b ++ (10 ∷ []))) ++ rest ≡ out ++ ((a ++ (t ++ b)) ++ (10 ∷ rest))
regroup out a t b rest = simp append_assoc

dump_ndjson-ended :
    (out : List ℕ) (rows : List LldpTlvRow)
    → All (λ r. All (λ b. b < 256) r.value_head) rows
    → dump_ndjson out rows ≡ out ++ ended rows
unfolding dump_ndjson
dump_ndjson-ended out [] h = sym (append-nil out)
dump_ndjson-ended out (row ∷ rows) (h, hs) =
    let a = codes "{\"table\":\"lldp\",\"row\":" in
    dump_ndjson-ended (row_to_json (out ++ a) row ++ (codes "}" ++ (10 ∷ []))) rows hs
    ∙ ap (λ x. (x ++ (codes "}" ++ (10 ∷ []))) ++ ended rows) (row_to_json-append (out ++ a) row h)
    ∙ regroup out a (row_to_json [] row) (codes "}") (ended rows)

lines_from-ended :
    (rows : List LldpTlvRow)
    → All (λ r. All (λ b. b < 256) r.value_head) rows
    → lines_from [] (ended rows) ≡ map line_of rows ++ ([] ∷ [])
lines_from-ended [] h = refl
lines_from-ended (row ∷ rows) (h, hs) =
    lines_from-text [] (line_of row) (ended rows) (line_of-IsText row h).all
    ∙ ap (λ ls. line_of row ∷ ls) (lines_from-ended rows hs)

-- Bytes that a JSON string can hold as they are.
abbrev pub Unquoted : ℕ → Type 0
Unquoted b = (b ≢ 34) × (b ≢ 92)

ascii-Unquoted : (bs : List ℕ) → All Unquoted (ascii bs)
ascii-Unquoted [] = tt
ascii-Unquoted (b ∷ bs) = (go (printable b) refl, ascii-Unquoted bs)
  where
    go : (c : Bool) → printable b ≡ c → Unquoted (if c then b else 46)
    go true clean = ((λ e. ground arith), (λ e. ground arith))
    go false bad = ((λ e. omega arith), (λ e. omega arith))

-- The NDJSON dump of any table whose value_head columns hold bytes, into an empty text: split at its
-- newlines, it is one line for each row, in order, and the empty text behind the last newline. A
-- row's line is the table's frame around its JSON object; every byte of a line is printable ASCII,
-- and the ASCII preview of a value has neither a quote nor a backslash.
pub dump_ndjson-lines :
    (rows : List LldpTlvRow)
    → All (λ r. All (λ b. b < 256) r.value_head) rows
    → (lines_from [] (dump_ndjson [] rows) ≡ map line_of rows ++ ([] ∷ []))
      × All (λ r. IsText (line_of r)) rows
      × All (λ r. All Unquoted (ascii (take (head_size r.tlv_length) r.value_head))) rows
dump_ndjson-lines rows h = (
  ap (lines_from []) (dump_ndjson-ended [] rows h) ∙ lines_from-ended rows h,
  lines rows h,
  previews rows,
)
  where
    lines :
        (rows : List LldpTlvRow)
        → All (λ r. All (λ b. b < 256) r.value_head) rows
        → All (λ r. IsText (line_of r)) rows
    lines [] h = tt
    lines (r ∷ rows) (h, hs) = (line_of-IsText r h, lines rows hs)

    previews :
        (rows : List LldpTlvRow)
        → All (λ r. All Unquoted (ascii (take (head_size r.tlv_length) r.value_head))) rows
    previews [] = tt
    previews (r ∷ rows) =
        (ascii-Unquoted (take (head_size r.tlv_length) r.value_head), previews rows)
