-- ===== src/Dag/Children/SomeipSd/RoundTrip.antt =====
-- someip_sd.hpp: the traversal reads back the entries and options of a service discovery message that
-- was laid out on the wire.
use nanotins.Shared.{ℕ, ◌+◌, ◌-◌, ◌*◌, ◌/◌, ◌^◌, ◌<◌, ◌≡◌, refl, ap, ◌∙◌, arith, subst}
use nanotins.Shared.{List, [], ◌∷◌, ◌++◌, length, length-append, All, Option, ◌>>=◌}
use nanotins.Shared.{>>=-same, leb, ltb, true, false}
use nanotins.Shared.Bits.{u32}
use nanotins.WireSpec.{view, read_field}
use nanotins.WireSpec.BigEndian.{
  be16, be32, Holds, Holds-append, Holds-drop, Holds-take, read-be16, read-be32,
}
use nanotins.Dag.Children.{fold_list}
use nanotins.Dag.Children.SomeipSd.{visit_sd, clamp, for_each_sd_child}
use nanotins.Dag.Children.SomeipSd.Visits.{
  seen_entry, seen_option, entry_list, visit_entries-fold_list,
}
use nanotins.Dag.Children.SomeipSd.Wire.{
  WireOption, encode_options, concat, option_list, visit_option_array-Holds,
}

-- A message: the fields of the SOME/IP header that play no part in the traversal, the SD flags, the
-- entries of 16 bytes each, and the options.
pub record SdMessage : Type 0 where
  pub client_id : ℕ
  pub session_id : ℕ
  pub protocol_version : ℕ
  pub interface_version : ℕ
  pub message_type : ℕ
  pub return_code : ℕ
  pub flags : ℕ
  pub entries : List (List ℕ)
  pub options : List WireOption

-- The options array, and the message from the SD flags on.
abbrev pub encode_array : List WireOption → List ℕ
encode_array os = be32 (length (encode_options os)) ++ encode_options os

abbrev pub encode_sd : SdMessage → List ℕ
encode_sd m =
    m.flags
    ∷ 0
    ∷ 0
    ∷ 0
    ∷ (be32 (16 * length m.entries) ++ (concat m.entries ++ encode_array m.options))

-- The header: message id 0xFFFF8100, the length from byte 8 on, and the other fields.
abbrev pub encode : SdMessage → List ℕ
encode m =
    0xFF
    ∷ 0xFF
    ∷ 0x81
    ∷ 0x00
    ∷ (be32 (8 + length (encode_sd m))
        ++ (be16 m.client_id
            ++ (be16 m.session_id
                ++ (m.protocol_version
                    ∷ m.interface_version
                    ∷ m.message_type
                    ∷ m.return_code
                    ∷ encode_sd m))))

-- Entries of 16 bytes, options whose length fits their field, and a message that its length field can
-- state.
pub record IsEncodable (m : SdMessage) : Type 0 where
  pub stride : All (λ e. length e ≡ 16) m.entries
  pub short : All (λ o. length o.value < 2 ^ 16) m.options
  pub small : 8 + length (encode_sd m) < 2 ^ 32

length-concat :
    (es : List (List ℕ)) → All (λ e. length e ≡ 16) es → length (concat es) ≡ 16 * length es
length-concat [] h = omega arith
length-concat (e ∷ es) (h, hs) = omega (arith, length-append e (concat es), length-concat es hs)

visit_sd-Holds :
    (S : Type 0) (m : SdMessage) (mem : List ℕ) (sd end : ℕ) (on_entry : S → ℕ → ℕ → Option S)
    (on_option : S → ℕ → ℕ → ℕ → ℕ → Option S) (s : S)
    → IsEncodable m
    → Holds mem sd (encode_sd m)
    → end ≡ sd + length (encode_sd m)
    → visit_sd mem sd end on_entry on_option s ≡ (
        fold_list (seen_entry on_entry) s (entry_list (sd + 8) 0 (length m.entries)) >>= λ s'.
        fold_list
          (seen_option on_option)
          s'
          (option_list (sd + 12 + 16 * length m.entries) 0 m.options))
unfolding visit_sd view read_field
visit_sd-Holds S m mem sd end on_entry on_option s ok h e =
    let k = length m.entries in
    let body = concat m.entries ++ encode_array m.options in
    let wide = length-concat m.entries ok.stride in
    let split = length-append (concat m.entries) (encode_array m.options) in
    let small = ok.small in
    let after : Holds mem (sd + 4) (be32 (16 * k) ++ body) =
      Holds-drop mem sd (m.flags ∷ 0 ∷ 0 ∷ 0 ∷ []) (be32 (16 * k) ++ body) h in
    let read =
      read-be32 mem sd 4 (16 * k) (omega arith)
        (Holds-take mem (sd + 4) (be32 (16 * k)) body after) in
    let room : ltb end (sd + 8) ≡ false = ground arith in
    let region : clamp end (sd + 8 + 16 * k) ≡ sd + 8 + 16 * k = ground arith in
    let count : u32 ((sd + 8 + 16 * k - (sd + 8)) / 16) ≡ k = omega arith in
    let tail : Holds mem (sd + 8 + 16 * k) (encode_array m.options) =
      subst (λ p. Holds mem p (encode_array m.options)) (omega arith)
        (Holds-drop mem (sd + 4 + 4) (concat m.entries) (encode_array m.options)
          (Holds-drop mem (sd + 4) (be32 (16 * k)) body after)) in
    let place : sd + 8 + 16 * k + 4 ≡ sd + 12 + 16 * k = omega arith in
    rw room (
      rw read (
        rw region (
          rw count (
            rw (visit_entries-fold_list S (sd + 8) 0 k on_entry s) (
              >>=-same (fold_list (seen_entry on_entry) s (entry_list (sd + 8) 0 k)) (λ s'.
                visit_option_array-Holds S m.options mem (sd + 8 + 16 * k) end on_option s' ok.short
                  (omega arith) tail (omega arith)
                ∙ ap (λ p. fold_list (seen_option on_option) s' (option_list p 0 m.options))
                    place))))))

-- Round trip: wherever a service discovery message with entries of 16 bytes, options whose lengths
-- fit their 16 bits and a total that its length field can state is laid out in a packet,
-- for_each_sd_child at its start visits, with any callbacks, each of its entries and then each of its
-- options, in order: an entry with its index modulo 256 and the offset of its bytes, an option with
-- its index modulo 256, its offset, the length of its value and its type. The bytes before and after
-- the message play no part.
pub for_each_sd_child-encode :
    (front back : List ℕ) (m : SdMessage) (S : Type 0) (on_entry : S → ℕ → ℕ → Option S)
    (on_option : S → ℕ → ℕ → ℕ → ℕ → Option S) (s : S)
    → IsEncodable m
    → for_each_sd_child (front ++ (encode m ++ back)) (length front) on_entry on_option s ≡ (
        fold_list (seen_entry on_entry) s (entry_list (length front + 24) 0 (length m.entries))
        >>= λ s'.
            fold_list
              (seen_option on_option)
              s'
              (option_list (length front + 28 + 16 * length m.entries) 0 m.options))
unfolding for_each_sd_child view read_field
for_each_sd_child-encode front back m S on_entry on_option s ok =
    let mem = front ++ (encode m ++ back) in
    let off = length front in
    let n = 8 + length (encode_sd m) in
    let total : length mem ≡ off + (16 + length (encode_sd m)) + length back =
      omega (arith, length-append front (encode m ++ back), length-append (encode m) back) in
    let h = Holds-append front (encode m) back off refl in
    let ids = be16 0xFFFF ++ be16 0x8100 in
    let fields =
      be16 m.client_id
      ++ (be16 m.session_id
          ++ (m.protocol_version ∷ m.interface_version ∷ m.message_type ∷ m.return_code ∷ [])) in
    let small = ok.small in
    let room : ltb (length mem) (off + 16) ≡ false = ground arith in
    let service =
      read-be16 mem off 0 0xFFFF (omega arith)
        (subst (λ p. Holds mem p (be16 0xFFFF)) (omega arith) (h.0, ((h.1).0, tt))) in
    let method = read-be16 mem off 2 0x8100 (omega arith) (
      Holds-take mem (off + 2) (be16 0x8100) (be32 n ++ (fields ++ encode_sd m)) (
        Holds-drop mem off (be16 0xFFFF) (be16 0x8100 ++ (be32 n ++ (fields ++ encode_sd m))) h)) in
    let stated = read-be32 mem off 4 n small (
      Holds-take mem (off + 4) (be32 n) (fields ++ encode_sd m)
        (Holds-drop mem off ids (be32 n ++ (fields ++ encode_sd m)) h)) in
    let whole : leb (off + 8 + n) (length mem) ≡ true = ground arith in
    let payload : Holds mem (off + 16) (encode_sd m) =
      Holds-drop mem off (ids ++ (be32 n ++ fields)) (encode_sd m) h in
    let base : off + 16 + 8 ≡ off + 24 = omega arith in
    let place : off + 16 + 12 + 16 * length m.entries ≡ off + 28 + 16 * length m.entries =
      omega arith in
    rw room (
      rw service (
        rw method (
          rw stated (
            rw whole (
              rw base at (
                rw place at (
                  visit_sd-Holds S m mem (off + 16) (off + 8 + n) on_entry on_option s ok payload
                    (omega arith))))))))
