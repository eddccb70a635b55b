-- ===== src/Pdus/Agreement.antt =====
-- protocol_decode_bulk.hpp: the decode of a window in bulk against the serial decode.
use nanotins.Shared.{
  ℕ, suc, ◌+◌, sym, subst, ◌<◌, ◌^◌, ◌≡◌, refl, ap, List, [], ◌∷◌, length, All, true, some,
}
use nanotins.Shared.Bits.{u64}
use nanotins.Bulk.{decode_all}
use nanotins.Bulk.Overlay.{covers}
use nanotins.Bulk.Agreement.{decode_bulk-decode_all}
use nanotins.Pdus.{Bytes, Pdu}
use nanotins.Pdus.Columns.{pdu_key}
use nanotins.Pdus.Layers.{DecodedPdus}
use nanotins.Pdus.Trace.{Inside}
use nanotins.Pdus.Window.{PacketRef, numbered, decode_serially, decode_window}
use nanotins.Pdus.Passes.{Unwrapped, window_lawful}

length-numbered :
    (pid_base : ℕ) (refs : List PacketRef) → length (numbered pid_base refs) ≡ length refs
unfolding numbered
length-numbered pid_base [] = refl
length-numbered pid_base (r ∷ refs) = ap suc (length-numbered (u64 (pid_base + 1)) refs)

module _ (mem : List ℕ) (window : Bytes) (inside : Inside mem window) where
  numbered-Unwrapped :
      (pid_base : ℕ) (refs : List PacketRef)
      → All (Unwrapped mem window inside) refs
      → All (λ p. Unwrapped mem window inside p.ref) (numbered pid_base refs)
  unfolding numbered
  numbered-Unwrapped pid_base [] ok = tt
  numbered-Unwrapped pid_base (r ∷ refs) (o, ok) =
      (o, numbered-Unwrapped (u64 (pid_base + 1)) refs ok)

-- The decode of a window in bulk is the serial decode_packet of its packets: when the window lies in
-- memory, no packet's offset and size wrap 2^64, and every column that the serial decode fills is
-- shorter than 2^32 rows, then for any order in which the runner takes the kernels, one that names
-- each packet at least once and nothing else, both passes, the prefix sum and the resize run without
-- a fault and leave the same columns, with the rows of earlier windows in front.
pub decode_window-decode_serially :
    (mem : List ℕ) (window : Bytes) (inside : Inside mem window) (pid_base : ℕ)
    (refs : List PacketRef) (order : List ℕ) (out result : DecodedPdus)
    → All (λ r. r.off + r.size < 2 ^ 64) refs
    → decode_serially mem window pid_base refs out ≡ some result
    → ((k : Pdu) → length (result k) < 2 ^ 32)
    → All (λ i. i < length refs) order
    → covers (length refs) order ≡ true
    → decode_window mem window pid_base refs order out ≡ some result
unfolding decode_window numbered decode_all
decode_window-decode_serially mem window inside pid_base [] order out result ok seq small within
      cover =
    seq
decode_window-decode_serially mem window inside pid_base (r ∷ refs) order out result ok seq small
      within cover =
    let count = length-numbered pid_base (r ∷ refs) in
    decode_bulk-decode_all (window_lawful mem window inside) (numbered pid_base (r ∷ refs)) order
      out result (numbered-Unwrapped mem window inside pid_base (r ∷ refs) ok) seq small
      (subst (λ n. All (λ i. i < n) order) (sym count) within)
      (subst (λ n. covers n order ≡ true) (sym count) cover)
