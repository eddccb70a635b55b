-- ===== src/Dag/Children/SomeipSd/Visits.antt =====
-- someip_sd.hpp: the traversal visits the same entries and options whatever the callbacks are, and
-- stays inside the packet however the message lies about its lengths.
use nanotins.Shared.{
  ℕ, zero, suc, ◌+◌, ◌-◌, ◌*◌, ◌/◌, ◌<◌, ◌≤◌, ◌≡◌, refl, arith, List, [], ◌∷◌, length, All, All-map,
}
use nanotins.Shared.{Option, some, not, ◌||◌, ltb, leb, ◌==◌, if◌then◌else◌, ◌>>=◌, >>=-same}
use nanotins.Shared.{Bool-cases, inl, inr}
use nanotins.Shared.Bits.{u8, u32}
use nanotins.Shared.Buffer.{byte, byte_at-lt}
use nanotins.WireSpec.{big}
use nanotins.WireSpec.Bounds.{view-IsRead, read_scalar_at-IsRead}
use nanotins.WireSpec.Protocols.Someip.{someip_spec, someip_sd_header_spec}
use nanotins.Dag.Children.{fold_list}
use nanotins.Dag.Children.SomeipSd.{
  visit_entries, visit_options, clamp, visit_option_array, visit_sd, for_each_sd_child,
}

-- An entry as the callback sees it: its index and where its 16 bytes start; and an option: its index,
-- where it starts, its Length field and its Type octet.
abbrev pub Entry : Type 0
Entry = ℕ × ℕ

abbrev pub SdOption : Type 0
SdOption = ℕ × ℕ × ℕ × ℕ

abbrev pub seen_entry {ℓ} : {S : Type ℓ} → (S → ℕ → ℕ → Option S) → S → Entry → Option S
seen_entry on s e = on s e.0 e.1

abbrev pub seen_option {ℓ} : {S : Type ℓ} → (S → ℕ → ℕ → ℕ → ℕ → Option S) → S → SdOption → Option S
seen_option on s o = on s o.0 o.1 o.2 o.3

-- Where an entry's bytes end, and an option's.
abbrev pub entry_end : Entry → ℕ
entry_end e = e.1 + 16

abbrev pub option_end : SdOption → ℕ
option_end o = o.1 + 3 + o.2

-- `left` entries from entry `i` on, end to end.
abbrev pub entry_list : (entries i left : ℕ) → List Entry
entry_list entries i zero = []
entry_list entries i (suc left) = (u8 i, entries + i * 16) ∷ entry_list entries (i + 1) left

pub visit_entries-fold_list :
    (S : Type 0) (entries i left : ℕ) (on : S → ℕ → ℕ → Option S) (s : S)
    → visit_entries entries i left on s ≡ fold_list (seen_entry on) s (entry_list entries i left)
unfolding visit_entries
visit_entries-fold_list S entries i zero on s = refl
visit_entries-fold_list S entries i (suc left) on s =
    >>=-same (on s (u8 i) (entries + i * 16))
      (λ s'. visit_entries-fold_list S entries (i + 1) left on s')

entry_list-inside :
    (entries i left end : ℕ)
    → entries + (i + left) * 16 ≤ end
    → All (λ e. entry_end e ≤ end) (entry_list entries i left)
entry_list-inside entries i zero end h = tt
entry_list-inside entries i (suc left) end h =
    (omega arith, entry_list-inside entries (i + 1) left end (omega arith))

-- The options that a loop visits, each inside the region.
record OptionList (pkt : List ℕ) (opt opt_end oi fuel : ℕ) : Type 1 where
  options : List SdOption
  inside : All (λ o. option_end o ≤ opt_end) options
  folds :
      (S : Type 0) (on : S → ℕ → ℕ → ℕ → ℕ → Option S) (s : S)
      → visit_options fuel pkt opt opt_end oi on s ≡ fold_list (seen_option on) s options

OptionList-visit_options :
    (fuel : ℕ) (pkt : List ℕ) (opt opt_end oi : ℕ)
    → opt_end ≤ length pkt
    → opt_end - opt < fuel
    → OptionList pkt opt opt_end oi fuel
unfolding visit_options
OptionList-visit_options zero pkt opt opt_end oi within h = absurd (omega arith)
OptionList-visit_options (suc fuel) pkt opt opt_end oi within h =
    elim (Bool-cases (leb (opt + 3) opt_end)) [
      | inr past ↦ record {
        options = [];
        inside = tt;
        folds = λ S on s. rw (past, visit_options) refl;
      }
      | inl head ↦
          let (len, read) = read_scalar_at-IsRead big pkt opt 0 2 (ground arith) in
          let kind = byte_at-lt pkt (opt + 2) (ground arith) in
          elim (Bool-cases (ltb opt_end (opt + 3 + len))) [
            | inl cut ↦ record {
              options = [];
              inside = tt;
              folds = λ S on s. rw (head, visit_options) (rw read (rw kind (rw cut refl)));
            }
            | inr whole ↦
                let r =
                  OptionList-visit_options fuel pkt (opt + 3 + len) opt_end (u32 (oi + 1)) within
                    (ground arith) in
                record {
                  options = (u8 oi, opt, len, byte pkt (opt + 2)) ∷ r.options;
                  inside = (ground arith, r.inside);
                  folds = λ S on s.
                      rw (head, visit_options)
                        (rw read (
                          rw kind (
                            rw whole (
                              >>=-same (on s (u8 oi) opt len (byte pkt (opt + 2)))
                                (λ s'. r.folds S on s')))));
                }
          ]
    ]

-- The options of the array behind the entries.
record ArrayOptions (pkt : List ℕ) (opt_len_at end : ℕ) : Type 1 where
  options : List SdOption
  inside : All (λ o. option_end o ≤ end) options
  folds :
      (S : Type 0) (on : S → ℕ → ℕ → ℕ → ℕ → Option S) (s : S)
      → visit_option_array pkt opt_len_at end on s ≡ fold_list (seen_option on) s options

ArrayOptions-visit_option_array :
    (pkt : List ℕ) (opt_len_at end : ℕ) → end ≤ length pkt → ArrayOptions pkt opt_len_at end
unfolding visit_option_array
ArrayOptions-visit_option_array pkt opt_len_at end within =
    elim (Bool-cases (ltb end (opt_len_at + 4))) [
      | inl past ↦ record { options = []; inside = tt; folds = λ S on s. rw past refl }
      | inr room ↦
          let (n, read) = read_scalar_at-IsRead big pkt opt_len_at 0 4 (ground arith) in
          let opt = opt_len_at + 4 in
          let opt_end = clamp end (opt + n) in
          let clamped : opt_end ≤ end = ground arith in
          let r =
            OptionList-visit_options (suc (opt_end - opt)) pkt opt opt_end 0 (omega arith)
              (omega arith) in
          record {
            options = r.options;
            inside =
                All-map (λ o. option_end o ≤ opt_end) (λ o. option_end o ≤ end) (λ o h. omega arith)
                  r.options r.inside;
            folds = λ S on s. rw room (rw read (r.folds S on s));
          }
    ]

-- The children that a traversal visits: `count` entries from `base` on, and some options.
record SdChildren (end base : ℕ)
    (run : (S : Type 0) → (S → ℕ → ℕ → Option S) → (S → ℕ → ℕ → ℕ → ℕ → Option S) → S → Option S)
    : Type 1 where
  count : ℕ
  options : List SdOption
  folds :
      (S : Type 0) (on_entry : S → ℕ → ℕ → Option S) (on_option : S → ℕ → ℕ → ℕ → ℕ → Option S)
      (s : S)
      → run S on_entry on_option s ≡ (
          fold_list (seen_entry on_entry) s (entry_list base 0 count) >>= λ s'.
          fold_list (seen_option on_option) s' options)
  entries_inside : All (λ e. entry_end e ≤ end) (entry_list base 0 count)
  options_inside : All (λ o. option_end o ≤ end) options

SdChildren-visit_sd :
    (pkt : List ℕ) (sd end : ℕ)
    → end ≤ length pkt
    → SdChildren end (sd + 8) (λ S on_entry on_option s. visit_sd pkt sd end on_entry on_option s)
unfolding visit_sd
SdChildren-visit_sd pkt sd end within = elim (Bool-cases (ltb end (sd + 8))) [
  | inl past ↦ record {
    count = 0;
    options = [];
    folds = λ S on_entry on_option s. rw past refl;
    entries_inside = tt;
    options_inside = tt;
  }
  | inr room ↦
      let (n, read) =
        view-IsRead pkt sd someip_sd_header_spec "entries_length" _ refl refl (ground arith) in
      let entries_end = clamp end (sd + 8 + n) in
      let clamped : entries_end ≤ end = ground arith in
      let low : sd + 8 ≤ entries_end = ground arith in
      let count = u32 ((entries_end - (sd + 8)) / 16) in
      let r = ArrayOptions-visit_option_array pkt (sd + 8 + n) end within in
      record {
        count = count;
        options = r.options;
        folds = λ S on_entry on_option s. rw room (
            rw read (
              rw (visit_entries-fold_list S (sd + 8) 0 count on_entry s) (
                >>=-same (fold_list (seen_entry on_entry) s (entry_list (sd + 8) 0 count))
                  (λ s'. r.folds S on_option s'))));
        entries_inside = entry_list-inside (sd + 8) 0 count end (omega arith);
        options_inside = r.inside;
      }
]

SdChildren-for_each_sd_child :
    (pkt : List ℕ) (off : ℕ)
    → SdChildren
        (length pkt)
        (off + 24)
        (λ S on_entry on_option s. for_each_sd_child pkt off on_entry on_option s)
unfolding for_each_sd_child
SdChildren-for_each_sd_child pkt off = elim (Bool-cases (ltb (length pkt) (off + 16))) [
  | inl short ↦ nothing (λ S on_entry on_option s. rw short refl)
  | inr whole ↦
      let (service, e1) = view-IsRead pkt off someip_spec "service_id" _ refl refl (ground arith) in
      let (method, e2) = view-IsRead pkt off someip_spec "method_id" _ refl refl (ground arith) in
      elim (Bool-cases (not (service == 0xFFFF) || not (method == 0x8100))) [
        | inl other ↦ nothing (λ S on_entry on_option s. rw whole (rw e1 (rw e2 (rw other refl))))
        | inr is_sd ↦
            let (n, e3) = view-IsRead pkt off someip_spec "length" _ refl refl (ground arith) in
            let end = if leb (off + 8 + n) (length pkt) then off + 8 + n else length pkt in
            let within : end ≤ length pkt = ground arith in
            let base : off + 16 + 8 ≡ off + 24 = omega arith in
            let r = rw base at (SdChildren-visit_sd pkt (off + 16) end within) in
            record {
              count = r.count;
              options = r.options;
              folds = λ S on_entry on_option s.
                  rw whole (rw e1 (rw e2 (rw is_sd (rw e3 (r.folds S on_entry on_option s)))));
              entries_inside =
                  All-map (λ e. entry_end e ≤ end) (λ e. entry_end e ≤ length pkt)
                    (λ e h. omega arith) (entry_list (off + 24) 0 r.count) r.entries_inside;
              options_inside =
                  All-map (λ o. option_end o ≤ end) (λ o. option_end o ≤ length pkt)
                    (λ o h. omega arith) r.options r.options_inside;
            }
      ]
]
  where
    nothing :
        ((S : Type 0) (on_entry : S → ℕ → ℕ → Option S) (on_option : S → ℕ → ℕ → ℕ → ℕ → Option S)
            (s : S)
          → for_each_sd_child pkt off on_entry on_option s ≡ some s)
        → SdChildren
            (length pkt)
            (off + 24)
            (λ S on_entry on_option s. for_each_sd_child pkt off on_entry on_option s)
    nothing h = record {
      count = 0;
      options = [];
      folds = h;
      entries_inside = tt;
      options_inside = tt;
    }

-- The children of a SOME/IP message: for every packet and every offset, inside it or not, and
-- whatever the lengths of the message claim, for_each_sd_child with any callbacks, faults of theirs
-- included, calls the first for the same number of entries, 16 bytes each and end to end from byte 24
-- of the message on, and then the second for the same options in order. Each entry's 16 bytes and
-- each option's 3 bytes and the bytes that its Length field counts lie inside the packet.
pub for_each_sd_child-fold_list :
    (pkt : List ℕ) (off : ℕ)
    → (count : ℕ) × (options : List SdOption) × ((S : Type 0) (on_entry : S → ℕ → ℕ → Option S)
          (on_option : S → ℕ → ℕ → ℕ → ℕ → Option S) (s : S)
        → for_each_sd_child pkt off on_entry on_option s ≡ (
            fold_list (seen_entry on_entry) s (entry_list (off + 24) 0 count) >>= λ s'.
            fold_list (seen_option on_option) s' options))
      × All (λ e. entry_end e ≤ length pkt) (entry_list (off + 24) 0 count)
      × All (λ o. option_end o ≤ length pkt) options
for_each_sd_child-fold_list pkt off =
    let r = SdChildren-for_each_sd_child pkt off in
    (r.count, r.options, r.folds, r.entries_inside, r.options_inside)
