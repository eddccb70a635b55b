-- ===== src/Lldp/Ndjson/Rows.antt =====
-- examples/lldp/lldp.hpp: the functions of the NDJSON dump append a printable text, the same to any
-- text.
use nanotins.Shared.{ℕ, ◌<◌, ◌≡◌, refl, sym, ap, ◌∙◌, List, [], ◌++◌}
use nanotins.Shared.{true, ◌==◌, take, All, Bool-cases, inl, inr}
use mathlib.Core.List.{append_assoc, append-nil}
use nanotins.Dpar.Texts.{codes}
use nanotins.Lldp.{LldpTlvRow, lldp_ttl, lldp_sys_caps, lldp_mgmt_addr, head_size}
use nanotins.Lldp.Ndjson.{
  lldp_type_name, hex, ascii, append_value_head, cap_names, caps_from, append_caps, number_field,
  append_decoded, row_to_json,
}
use nanotins.Lldp.Ndjson.Texts.{
  IsText, literal, IsText-append, number_field-IsText, lldp_type_name-IsText, caps_from-IsText,
  hex-IsText, ascii-IsText, take-bytes,
}

-- A function on texts that appends a printable text, the same to any text.
abbrev pub Appends : (List ℕ → List ℕ) → Type 0
Appends f = (text : List ℕ) × ((out : List ℕ) → f out ≡ out ++ text) × IsText text

Appends-append : (text : List ℕ) → IsText text → Appends (λ out. out ++ text)
Appends-append text h = (text, (λ out. refl), h)

Appends-then : (f g : List ℕ → List ℕ) → Appends f → Appends g → Appends (λ out. g (f out))
Appends-then f g (t, e, ht) (u, d, hu) = (
  t ++ u,
  (λ out. d (f out) ∙ ap (λ x. x ++ u) (e out) ∙ append_assoc out t u),
  IsText-append t u ht hu,
)

append_value_head-Appends :
    (r : LldpTlvRow) → All (λ b. b < 256) r.value_head → Appends (λ out. append_value_head out r)
unfolding append_value_head
append_value_head-Appends r h = Appends-append _ (
    IsText-append (codes "\"hex\":\"") _ (literal refl) (
      IsText-append (hex (take (head_size r.tlv_length) r.value_head)) _
        (hex-IsText (take (head_size r.tlv_length) r.value_head)
          (take-bytes (head_size r.tlv_length) r.value_head h))
        (IsText-append (codes "\",\"ascii\":\"") _ (literal refl) (
          IsText-append (ascii (take (head_size r.tlv_length) r.value_head)) _
            (ascii-IsText (take (head_size r.tlv_length) r.value_head)) (literal refl)))))

append_caps-Appends :
    (key : List ℕ) (bits : ℕ) → IsText key → Appends (λ out. append_caps out key bits)
unfolding append_caps
append_caps-Appends key bits h = Appends-append _ (
    IsText-append (codes "\"") _ (literal refl) (
      IsText-append key _ h (
        IsText-append (codes "\":[") _ (literal refl) (
          IsText-append (caps_from true 0 cap_names bits) _
            (caps_from-IsText true 0 cap_names bits (
              literal refl,
              (
                literal refl,
                (
                  literal refl,
                  (
                    literal refl,
                    (
                      literal refl,
                      (
                        literal refl,
                        (
                          literal refl,
                          (literal refl, (literal refl, (literal refl, (literal refl, tt)))),
                        ),
                      ),
                    ),
                  ),
                ),
              ),
            ))
            (literal refl)))))

append_decoded-Appends : (r : LldpTlvRow) → Appends (λ out. append_decoded out r)
unfolding append_decoded
append_decoded-Appends r = elim (Bool-cases (r.tlv_type == lldp_ttl)) [
  | inl ttl ↦
      rw ttl
        (Appends-append _ (number_field-IsText (codes "ttl_seconds") r.ttl_seconds (literal refl)))
  | inr not_ttl ↦ elim (Bool-cases (r.tlv_type == lldp_sys_caps)) [
    | inl caps ↦ rw not_ttl (
        rw caps (
          Appends-then _ _
            (Appends-append _ (
              IsText-append (number_field (codes "caps_supported") r.caps_supported) _
                (number_field-IsText (codes "caps_supported") r.caps_supported (literal refl))
                (number_field-IsText (codes "caps_enabled") r.caps_enabled (literal refl))))
            (Appends-then _ _ (append_caps-Appends (codes "caps") r.caps_enabled (literal refl))
              (Appends-append (codes ",") (literal refl)))))
    | inr not_caps ↦ elim (Bool-cases (r.tlv_type == lldp_mgmt_addr)) [
      | inl mgmt ↦ rw not_ttl (
          rw not_caps (
            rw mgmt (
              Appends-append _ (
                IsText-append (number_field (codes "mgmt_addr_subtype") r.mgmt_addr_subtype) _
                  (number_field-IsText (codes "mgmt_addr_subtype") r.mgmt_addr_subtype
                    (literal refl))
                  (IsText-append (number_field (codes "mgmt_iface_subtype") r.mgmt_iface_subtype) _
                    (number_field-IsText (codes "mgmt_iface_subtype") r.mgmt_iface_subtype
                      (literal refl))
                    (number_field-IsText (codes "mgmt_iface_number") r.mgmt_iface_number
                      (literal refl)))))))
      | inr not_mgmt ↦
          rw not_ttl (rw not_caps (rw not_mgmt ([], (λ out. sym (append-nil out)), literal refl)))
    ]
  ]
]

pub row_to_json-Appends :
    (r : LldpTlvRow) → All (λ b. b < 256) r.value_head → Appends (λ out. row_to_json out r)
unfolding row_to_json
row_to_json-Appends r h =
    Appends-then _ _
      (Appends-append _ (
        IsText-append (codes "{") _ (literal refl) (
          field (codes "packet_id") r.packet_id (literal refl) (
            field (codes "rule_id") r.rule_id (literal refl) (
              field (codes "tlv_index") r.tlv_index (literal refl) (
                field (codes "type") r.tlv_type (literal refl) (
                  IsText-append (codes "\"type_name\":\"") _ (literal refl) (
                    IsText-append (lldp_type_name r.tlv_type) _ (lldp_type_name-IsText r.tlv_type) (
                      IsText-append (codes "\",") _ (literal refl) (
                        field (codes "length") r.tlv_length (literal refl) (
                          field (codes "subtype") r.subtype (literal refl) (
                            number_field-IsText (codes "value_offset") r.value_offset
                              (literal refl)))))))))))))
      (Appends-then _ _ (append_decoded-Appends r) (
        Appends-then _ _ (append_value_head-Appends r h)
          (Appends-append (codes "}") (literal refl))))
  where
    field :
        (key : List ℕ) (n : ℕ) {rest : List ℕ}
        → IsText key
        → IsText rest
        → IsText (number_field key n ++ rest)
    field key n hk hr = IsText-append (number_field key n) _ (number_field-IsText key n hk) hr
