-- ===== src/Pcap/Scan/Total.antt =====
-- pcap_blocks.hpp, phase A: the scan of any window ends without a fault, and the references it appends
-- tile the bytes it reports as consumed.
use nanotins.Shared.{ℕ, zero, suc, ◌+◌, ◌^◌, ◌≤◌, ◌<◌, ◌≡◌, refl, ◌∙◌, arith}
use nanotins.Shared.{Option, none, some, List, [], ◌∷◌, ◌++◌, length}
use nanotins.Shared.{Bool-cases, inl, inr, ◌⊎◌}
use nanotins.Pcap.{BlockRef, ScanState}
use nanotins.Shared.{sym, subst}
use nanotins.Shared.Bits.{u32}
use native.Mathlib.Decide.{dec_le}
use nanotins.Pcap.Scan.Rounds.{
  stop_at, record_total, header_at, record_loop_short, record_loop_partial, record_loop_next,
  block_loop_short, block_loop_bad, block_loop_partial, block_loop_next,
}
use nanotins.Pcap.Scan.{
  ScanError, bad_block_length, LoopEnd, record_ref, record_loop, block_ref, commit, block_loop,
  scan_loop,
}
use mathlib.Core.List.{append_assoc, append-nil}

-- The references lie end to end from `a` to `b`, and each takes at least 12 bytes.
abbrev pub Tiles : ℕ → List BlockRef → ℕ → Type 0
Tiles a [] b = a ≡ b
Tiles a (r ∷ rs) b = (r.file_offset ≡ a) × (12 ≤ r.len) × Tiles (a + r.len) rs b

-- What a loop that starts at `pos` with `out` leaves behind.
pub record Scanned (file : List ℕ) (pos : ℕ) (out : List BlockRef) (e : LoopEnd) : Type 0 where
  pub news : List BlockRef
  pub appended : e.out ≡ out ++ news
  pub tiles : Tiles pos news e.pos
  pub inside : e.pos ≤ length file
  pub only_length : (e.error ≡ none) ⊎ (e.error ≡ some bad_block_length)

Scanned-stop :
    (file : List ℕ) (st : ScanState) (pos : ℕ) (out : List BlockRef) (error : Option ScanError)
    → pos ≤ length file
    → (error ≡ none) ⊎ (error ≡ some bad_block_length)
    → Scanned file pos out (record { state = st; pos = pos; out = out; error = error })
Scanned-stop file st pos out error h o = record {
  news = [];
  appended = rw append-nil;
  tiles = refl;
  inside = h;
  only_length = o;
}

Scanned-step :
    (file : List ℕ) (pos : ℕ) (out : List BlockRef) (r : BlockRef) (e : LoopEnd)
    → r.file_offset ≡ pos
    → 12 ≤ r.len
    → Scanned file (pos + r.len) (out ++ (r ∷ [])) e
    → Scanned file pos out e
Scanned-step file pos out r e at long s = record {
  news = r ∷ s.news;
  appended = s.appended ∙ append_assoc out (r ∷ []) s.news;
  tiles = (at, long, s.tiles);
  inside = s.inside;
  only_length = s.only_length;
}

abbrev pub Ends : List ℕ → ℕ → List BlockRef → Option LoopEnd → Type 0
Ends file pos out o = (e : LoopEnd) × (o ≡ some e) × Scanned file pos out e

Ends-stop :
    (file : List ℕ) (st : ScanState) (pos : ℕ) (out : List BlockRef) (error : Option ScanError)
    → {o : Option LoopEnd} → o ≡ stop_at st pos out error
    → pos ≤ length file
    → (error ≡ none) ⊎ (error ≡ some bad_block_length)
    → Ends file pos out o
Ends-stop file st pos out error e h o = (_, e, Scanned-stop file st pos out error h o)

Ends-step :
    (file : List ℕ) (pos : ℕ) (out : List BlockRef) (r : BlockRef) {o o' : Option LoopEnd}
    → o ≡ o'
    → r.file_offset ≡ pos
    → 12 ≤ r.len
    → Ends file (pos + r.len) (out ++ (r ∷ [])) o'
    → Ends file pos out o
Ends-step file pos out r step at long (e, q, s) =
    (e, step ∙ q, Scanned-step file pos out r e at long s)

module _ (file : List ℕ) (small : length file < 2 ^ 32) where
  record_loop-Ends :
      (fuel : ℕ) (st : ScanState) (pos : ℕ) (out : List BlockRef)
      → pos ≤ length file
      → length file < fuel + pos
      → Ends file pos out (record_loop fuel file st pos out)
  unfolding record_ref
  record_loop-Ends zero st pos out h f = absurd (omega arith)
  record_loop-Ends (suc fuel) st pos out h f = elim (dec_le (pos + 16) (length file)) [
    | no short ↦
        Ends-stop file st pos out none (record_loop_short fuel file st pos out (omega arith)) h
          (inl refl)
    | yes long ↦ elim (dec_le (pos + record_total file st pos) (length file)) [
      | no cut ↦
          Ends-stop file st pos out none
            (record_loop_partial fuel file st pos out long (omega arith)) h (inl refl)
      | yes fits ↦
          let total = record_total file st pos in
          let exact : u32 total ≡ total = omega arith in
          Ends-step file pos out (record_ref st pos total)
            (record_loop_next fuel file st pos out fits) refl (omega arith)
            (subst
              (λ t.
                Ends file (pos + t) (out ++ (record_ref st pos total ∷ []))
                  (record_loop fuel file st (pos + total) (out ++ (record_ref st pos total ∷ []))))
              (sym exact)
              (record_loop-Ends fuel st (pos + total) (out ++ (record_ref st pos total ∷ [])) fits
                (omega arith)))
    ]
  ]

  block_loop-Ends :
      (fuel : ℕ) (st : ScanState) (pos : ℕ) (out : List BlockRef)
      → pos ≤ length file
      → length file < fuel + pos
      → Ends file pos out (block_loop fuel file st pos out)
  unfolding block_ref
  block_loop-Ends zero st pos out h f = absurd (omega arith)
  block_loop-Ends (suc fuel) st pos out h f = elim (dec_le (pos + 12) (length file)) [
    | no short ↦
        Ends-stop file st pos out none (block_loop_short fuel file st pos out (omega arith)) h
          (inl refl)
    | yes read ↦
        let now = header_at file st.little_endian pos in
        elim (dec_le 12 now.total) [
          | no bad ↦
              Ends-stop file st pos out (some bad_block_length)
                (block_loop_bad fuel file st pos out read (omega arith)) h (inr refl)
          | yes good ↦ elim (dec_le (pos + now.total) (length file)) [
            | no cut ↦
                Ends-stop file st pos out none
                  (block_loop_partial fuel file st pos out read good (omega arith)) h (inl refl)
            | yes fits ↦
                Ends-step file pos out (block_ref pos now)
                  (block_loop_next fuel file st pos out read good fits) (refl) (good)
                  (block_loop-Ends fuel (commit st now) (pos + now.total)
                    (out ++ (block_ref pos now ∷ [])) fits (omega arith))
          ]
        ]
  ]

  pub scan_loop-Ends :
      (st : ScanState) (pos : ℕ) (out : List BlockRef)
      → pos ≤ length file
      → Ends file pos out (scan_loop file st pos out)
  unfolding scan_loop
  scan_loop-Ends st pos out h = elim (Bool-cases st.is_pcapng) [
    | inl ng ↦ simp ng (block_loop-Ends (suc (length file)) st pos out h (omega arith))
    | inr legacy ↦ simp legacy (record_loop-Ends (suc (length file)) st pos out h (omega arith))
  ]

pub Tiles-append :
    (rs ss : List BlockRef) (a b c : ℕ) → Tiles a rs b → Tiles b ss c → Tiles a (rs ++ ss) c
Tiles-append [] ss a b c e t = subst (λ x. Tiles x ss c) (sym e) t
Tiles-append (r ∷ rs) ss a b c (at, long, t) u = (at, long, Tiles-append rs ss (a + r.len) b c t u)
