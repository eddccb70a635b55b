-- ===== src/Pcap/Scan/Window.antt =====
-- pcap_blocks.hpp, phase A: a whole call of the scan, from the detection of the format to the end.
use nanotins.Shared.{ℕ, ◌^◌, ◌≤◌, ◌<◌, ◌≡◌, refl, sym, arith}
use nanotins.Shared.{Option, none, some, Bool, true, false, List, [], ◌∷◌, ◌++◌, length, ◌==◌}
use nanotins.Shared.{ltb, ltb-false→le, Bool-cases, inl, inr, ◌>>=◌, if◌then◌else◌}
use nanotins.Pcap.{BlockRef, ScanState, rd32, block_type_shb, is_pcap_magic}
use nanotins.Pcap.Readers.{word32, rd32-word32}
use nanotins.Pcap.Scan.{
  ScanError, ScanResult, LoopEnd, Detected, ready, need_more, failed, global_header_ref, detect,
  finish, scan_detected, scan_window,
}
use nanotins.Pcap.Scan.Total.{Tiles, Scanned, scan_loop-Ends, Tiles-append}
use mathlib.Core.List.{append_assoc, append-nil}

-- What any call of `scan_window` leaves behind: the output keeps what it held and gains references
-- that tile the bytes from 0 to some `stop` inside the window, from which `consumed` is taken; where
-- there is no error, `consumed` is `stop`, and at the end of a capture it is the whole window.
pub record Sound (file : List ℕ) (out : List BlockRef) (at_eof : Bool) (r : ScanResult)
    : Type 0 where
  pub news : List BlockRef
  pub stop : ℕ
  pub appended : r.out ≡ out ++ news
  pub tiles : Tiles 0 news stop
  pub inside : stop ≤ length file
  pub consumed : r.error ≡ none → r.consumed ≡ stop
  pub whole : r.error ≡ none → at_eof ≡ true → stop ≡ length file

abbrev Started : List ℕ → List BlockRef → ℕ → List BlockRef → Type 0
Started file out pos out' =
    (news : List BlockRef) × (out' ≡ out ++ news) × Tiles 0 news pos × (pos ≤ length file)

abbrev Detects : List ℕ → List BlockRef → Bool → Option Detected → Type 0
Detects file out at_eof none = ⊥
Detects file out at_eof (some (ready st pos out')) = Started file out pos out'
Detects file out at_eof (some need_more) = at_eof ≡ false
Detects file out at_eof (some (failed bad)) = Unit {0}

Started-zero : (file : List ℕ) (out : List BlockRef) → Started file out 0 out
Started-zero file out = ([], sym (append-nil out), refl, omega arith)

Detects-short :
    (file : List ℕ) (out : List BlockRef) (at_eof : Bool) (bad : ScanError)
    → Detects file out at_eof (some (if at_eof then failed bad else need_more))
Detects-short file out true bad = tt
Detects-short file out false bad = refl

module _ (st : ScanState) (file : List ℕ) (out : List BlockRef) (at_eof : Bool) where
  -- A pcap magic leads the file: the global header is surfaced as a reference of 24 bytes.
  Detects-header :
      (le : Bool)
      → 24 ≤ length file
      → Detects file out at_eof (
          rd32 file 20 le >>= λ link. some (
            ready
              (record {
                started = true;
                is_pcapng = false;
                little_endian = le;
                pcap_link_type = link;
              })
              24
              (out ++ (global_header_ref link le ∷ []))))
  unfolding global_header_ref
  Detects-header le h =
      rw (rd32-word32 file 20 le (omega arith))
        (global_header_ref (word32 file 20 le) le ∷ [], refl, (refl, omega arith, refl), h)

  detect-Detects : Detects file out at_eof (detect st file out at_eof)
  unfolding detect
  detect-Detects = elim (Bool-cases st.started) [
    | inl go ↦ simp go (Started-zero file out)
    | inr first ↦ elim (Bool-cases (ltb (length file) 4)) [
      | inl short ↦ simp (first, short) (Detects-short file out at_eof _)
      | inr long ↦
          simp (first, long, rd32-word32 file 0 true (ltb-false→le _ _ long))
            (elim (Bool-cases (word32 file 0 true == block_type_shb)) [
              | inl ng ↦ rw ng (Started-zero file out)
              | inr other ↦ rw other (elim (Bool-cases (is_pcap_magic (word32 file 0 true))) [
                | inr bad ↦ rw bad tt
                | inl magic ↦ rw magic (elim (Bool-cases (ltb (length file) 24)) [
                  | inl cut ↦ rw cut (Detects-short file out at_eof _)
                  | inr full ↦ rw full (Detects-header _ (ltb-false→le _ _ full))
                ])
              ])
            ])
    ]
  ]

  finish-Sound :
      (pos : ℕ) (out' : List BlockRef) (e : LoopEnd)
      → Started file out pos out'
      → Scanned file pos out' e
      → Sound file out at_eof (finish file at_eof e)
  unfolding finish
  finish-Sound pos out' e (news, add, tiles, within) s = record {
    news = news ++ s.news;
    stop = e.pos;
    appended = ground (arith, append_assoc out news s.news);
    tiles = Tiles-append news s.news 0 pos e.pos tiles s.tiles;
    inside = s.inside;
    consumed = λ h. ground arith;
    whole = λ h full. ground arith;
  }

  untouched_Sound :
      (error : Option ScanError)
      → ((error ≡ none) → at_eof ≡ false)
      → Sound file out at_eof (record { state = st; out = out; consumed = 0; error = error })
  untouched_Sound error h = record {
    news = [];
    stop = 0;
    appended = sym (append-nil out);
    tiles = refl;
    inside = omega arith;
    consumed = λ e. refl;
    whole = λ e full. cc (h e);
  }

  abbrev Leaves : Option ScanResult → Type 0
  Leaves o = (r : ScanResult) × (o ≡ some r) × Sound file out at_eof r

  module _ (small : length file < 2 ^ 32) where
    detected_Leaves :
        (d : Detected)
        → Detects file out at_eof (some d)
        → Leaves (scan_detected file st out at_eof d)
    unfolding scan_detected
    detected_Leaves (ready st' pos out') (news, add, tiles, within) =
        let (e, run, s) = scan_loop-Ends file small st' pos out' within in
        (finish file at_eof e, rw run refl, finish-Sound pos out' e (news, add, tiles, within) s)
    detected_Leaves need_more d = (_, refl, untouched_Sound none (λ _. d))
    detected_Leaves (failed bad) d = (_, refl, untouched_Sound (some bad) (λ e. cc))

    window_Leaves :
        (o : Option Detected)
        → detect st file out at_eof ≡ o
        → Detects file out at_eof o
        → Leaves (scan_window st file out at_eof)
    unfolding scan_window
    window_Leaves none e d = absurd d
    window_Leaves (some found) e d = rw e (detected_Leaves found d)

-- Every call of `scan_window` on a window shorter than 2^32 bytes returns, without reading outside the
-- window, whatever the state and the bytes are, and what it leaves behind is `Sound`: the references
-- appended tile a prefix of the window end to end, each of at least 12 bytes; on success `consumed` is
-- the length of that prefix, and at the end of a capture the prefix is the whole window.
pub scan_window-Sound :
    (st : ScanState) (file : List ℕ) (out : List BlockRef) (at_eof : Bool)
    → length file < 2 ^ 32
    → (r : ScanResult) × (scan_window st file out at_eof ≡ some r) × Sound file out at_eof r
scan_window-Sound st file out at_eof small =
    window_Leaves st file out at_eof small (detect st file out at_eof) refl
      (detect-Detects st file out at_eof)
