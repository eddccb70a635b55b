-- ===== src/Pcap/Parse/Safety.antt =====
-- pcap_blocks.hpp, phase B: a parse of a block that lies inside the file does not fault.
use nanotins.Shared.{ℕ, ◌+◌, ◌-◌, ◌^◌, ◌≤◌, ◌<◌, ◌≡◌, ◌≢◌, refl, arith, List, length}
use nanotins.Shared.{none, Bool, true, false, ltb, leb, ◌==◌, Bool-cases, inl, inr, All, [], ◌∷◌}
use nanotins.Shared.{ltb-false→le, ◌&&◌, ◌||◌, not}
use nanotins.Shared.Buffer.{byte, byte_at-lt}
use nanotins.Pcap.{Kind, BlockRef, rd64, rd64_loop, upwards, downwards}
use nanotins.Pcap.Readers.{word32, rd16-word16, rd32-word32, pad4-arith}
use nanotins.Pcap.Options.Bounds.{IsInside, IsRead, Visits, for_options-IsRead}
use nanotins.Pcap.Parse.{
  is_kind, parse_shb, visit_ts_resol, parse_global_header, idb_options, parse_interface, parse_idb,
  parse_record, epb_options_offset, epb_options, visit_flags, parse_packet_block, parse_epb,
}

-- `rd64` reads eight bytes.
rd64_loop-IsRead :
    (mem : List ℕ) (p : ℕ) (ks : List ℕ) (v : ℕ)
    → All (λ k. p + k < length mem) ks
    → IsRead (rd64_loop mem p ks v)
unfolding rd64_loop
rd64_loop-IsRead mem p [] v h = (v, refl)
rd64_loop-IsRead mem p (k ∷ ks) v h =
    rw (byte_at-lt mem (p + k) h.0) (rd64_loop-IsRead mem p ks _ h.1)

rd64-IsRead : (mem : List ℕ) (p : ℕ) (le : Bool) → p + 8 ≤ length mem → IsRead (rd64 mem p le)
unfolding rd64
rd64-IsRead mem p true h = rd64_loop-IsRead mem p downwards 0 (omega arith)
rd64-IsRead mem p false h = rd64_loop-IsRead mem p upwards 0 (omega arith)

visit_ts_resol-Visits : (file : List ℕ) → Visits file (visit_ts_resol file)
unfolding visit_ts_resol
visit_ts_resol-Visits file acc opt h = elim (Bool-cases (opt.code == 9 && leb 1 opt.len)) [
  | inl hit ↦ rw hit (byte file opt.value, byte_at-lt file opt.value (ground arith))
  | inr miss ↦ rw miss (acc, refl)
]

visit_flags-Visits : (file : List ℕ) (le : Bool) → Visits file (visit_flags file le)
unfolding visit_flags
visit_flags-Visits file le acc opt h = elim (Bool-cases (opt.code == 2 && leb 4 opt.len)) [
  | inl hit ↦ rw hit (word32 file opt.value le, rd32-word32 file opt.value le (ground arith))
  | inr miss ↦ rw miss (acc, refl)
]

-- The option region of a packet block: inside the block, unless the offset of the options is 2^32 - 4,
-- where the test `opt_off + 4 <= ref.length` wraps to 0.
epb_options-IsInside :
    (file : List ℕ) (ref : BlockRef) (caplen : ℕ)
    → ref.file_offset + ref.len ≤ length file
    → ref.len < 2 ^ 32
    → 32 ≤ ref.len
    → epb_options_offset caplen ≢ 2 ^ 32 - 4
    → IsInside file (epb_options ref caplen)
unfolding epb_options
epb_options-IsInside file ref caplen inside narrow long fits = ground (arith, pad4-arith caplen)

is_kind-epb : (k : Kind) → is_kind k Kind.epb ≡ true → k ≡ Kind.epb
is_kind-epb Kind.shb h = cc
is_kind-epb Kind.idb h = cc
is_kind-epb Kind.epb h = refl
is_kind-epb Kind.pcap_record h = cc
is_kind-epb Kind.simple_packet h = cc
is_kind-epb Kind.other h = cc

module _ (file : List ℕ) (ref : BlockRef) (inside : ref.file_offset + ref.len ≤ length file) where
  abbrev le : Bool
  le = ref.little_endian

  abbrev at : ℕ → ℕ
  at k = ref.file_offset + k

  parse_record-ne-none : parse_record file ref ≢ none
  unfolding parse_record
  parse_record-ne-none = ground (
    arith,
    rd32-word32 file ref.file_offset le,
    rd32-word32 file (at 4) le,
    rd32-word32 file (at 8) le,
    rd32-word32 file (at 12) le,
  )

  parse_packet_block-ne-none :
      ref.len < 2 ^ 32
      → (ref.kind ≡ Kind.epb
          → 32 ≤ ref.len
          → epb_options_offset (word32 file (at 20) le) ≢ 2 ^ 32 - 4)
      → parse_packet_block file ref ≢ none
  unfolding parse_packet_block
  parse_packet_block-ne-none narrow fits =
      elim (Bool-cases (not (is_kind ref.kind Kind.epb) || ltb ref.len 32)) [
        | inl refused ↦ rw refused (ground arith)
        | inr taken ↦
            let kind : ref.kind ≡ Kind.epb = is_kind-epb ref.kind (ground arith) in
            let long : ltb ref.len 32 ≡ false = ground arith in
            let enough : 32 ≤ ref.len = ltb-false→le _ _ long in
            let (flags, walked) =
              for_options-IsRead file (visit_flags file le) (visit_flags-Visits file le)
                (epb_options ref (word32 file (at 20) le)) 0
                (epb_options-IsInside file ref (word32 file (at 20) le) inside narrow enough
                  (fits kind enough)) in
            ground (
              arith,
              walked,
              rd32-word32 file (at 8) le,
              rd32-word32 file (at 12) le,
              rd32-word32 file (at 16) le,
              rd32-word32 file (at 20) le,
              rd32-word32 file (at 24) le,
            )
      ]

  parse_global_header-ne-none :
      (magic : ℕ) → ref.len ≡ 24 → parse_global_header file ref magic ≢ none
  unfolding parse_global_header
  parse_global_header-ne-none magic h =
      ground (arith, rd32-word32 file (at 20) le, rd32-word32 file (at 16) le)

  parse_interface-ne-none : ref.len < 2 ^ 32 → parse_interface file ref ≢ none
  unfolding parse_interface idb_options
  parse_interface-ne-none narrow = elim (Bool-cases (ltb ref.len 20)) [
    | inl short ↦ rw short (ground arith)
    | inr long ↦
        let enough : 20 ≤ ref.len = ltb-false→le _ _ long in
        let (ts, walked) =
          for_options-IsRead file (visit_ts_resol file) (visit_ts_resol-Visits file)
            (idb_options ref) 6 (omega arith) in
        ground (arith, walked, rd16-word16 file (at 8) le, rd32-word32 file (at 8 + 4) le)
  ]

-- No fault in phase B: for a reference whose sum `file_offset + length` is inside the file, each of
-- the three parsers returns without reading outside the file, whatever the bytes are, and the option
-- walks end; for a packet block of at least 32 bytes this is provided that the computed offset of its
-- options, 28 plus the padded captured length modulo 2^32, is not 2^32 - 4. The length is a number of
-- 32 bits.
pub parse-ne-none :
    (file : List ℕ) (ref : BlockRef)
    → ref.file_offset + ref.len ≤ length file
    → ref.len < 2 ^ 32
    → (ref.kind ≡ Kind.epb
        → 32 ≤ ref.len
        → epb_options_offset (word32 file (ref.file_offset + 20) ref.little_endian) ≢ 2 ^ 32 - 4)
    → (parse_shb file ref ≢ none) × (parse_idb file ref ≢ none) × (parse_epb file ref ≢ none)
unfolding parse_shb parse_idb parse_epb
parse-ne-none file ref inside narrow fits = (
  elim (Bool-cases (ltb ref.len 28)) [
    | inl short ↦ rw short (ground arith)
    | inr long ↦
        let enough : 28 ≤ ref.len = ltb-false→le _ _ long in
        let (v, e) = rd64-IsRead file (ref.file_offset + 8 + 8) ref.little_endian (omega arith) in
        ground (
          arith,
          e,
          rd16-word16 file (ref.file_offset + 8 + 4) ref.little_endian,
          rd16-word16 file (ref.file_offset + 8 + 6) ref.little_endian,
        )
  ],
  ground (
    arith,
    rd32-word32 file ref.file_offset true,
    parse_global_header-ne-none file ref inside (word32 file ref.file_offset true),
    parse_interface-ne-none file ref inside narrow,
  ),
  ground (
    arith,
    parse_record-ne-none file ref inside,
    parse_packet_block-ne-none file ref inside narrow fits,
  ),
)
