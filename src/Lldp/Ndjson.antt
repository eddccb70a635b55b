-- ===== src/Lldp/Ndjson.antt =====
-- examples/lldp/lldp.hpp: the NDJSON dump of the table. A std::string is a list of bytes that is
-- appended to; no snprintf is cut off by its buffer.
pub mod Texts
pub mod Rows
pub mod Lines
use nanotins.Shared.{
  ℕ, zero, suc, ◌+◌, ◌*◌, ◌/◌, ◌%◌, ◌^◌, List, [], ◌∷◌, ◌++◌, Bool, true, false, ◌==◌, take,
}
use nanotins.Shared.{ltb, leb, ◌&&◌, not, if◌then◌else◌, length}
use nanotins.Shared.{bit_and}
use nanotins.Shared.Bits.{shl}
use nanotins.Dpar.Texts.{codes}
use nanotins.Lldp.{
  LldpTlvRow, lldp_end, lldp_chassis_id, lldp_port_id, lldp_ttl, lldp_sys_caps, lldp_mgmt_addr,
  head_size,
}

abbrev pub lldp_port_desc : ℕ
lldp_port_desc = 4

abbrev pub lldp_sys_name : ℕ
lldp_sys_name = 5

abbrev pub lldp_sys_desc : ℕ
lldp_sys_desc = 6

abbrev pub lldp_org_specific : ℕ
lldp_org_specific = 127

-- A `switch` of texts: the text of the first case that is `t`.
abbrev pub switch : ℕ → List (ℕ × List ℕ) → List ℕ → List ℕ
switch t [] default = default
switch t ((k, text) ∷ cases) default = if t == k then text else switch t cases default

abbrev pub type_names : List (ℕ × List ℕ)
type_names =
    (lldp_end, codes "end")
    ∷ (lldp_chassis_id, codes "chassis_id")
    ∷ (lldp_port_id, codes "port_id")
    ∷ (lldp_ttl, codes "ttl")
    ∷ (lldp_port_desc, codes "port_desc")
    ∷ (lldp_sys_name, codes "system_name")
    ∷ (lldp_sys_desc, codes "system_desc")
    ∷ (lldp_sys_caps, codes "system_caps")
    ∷ (lldp_mgmt_addr, codes "mgmt_address")
    ∷ (lldp_org_specific, codes "org_specific")
    ∷ []

unfoldable pub lldp_type_name : ℕ → List ℕ
lldp_type_name t = switch t type_names (codes "unknown")

-- `%u`, with fuel for the digits: the value and one more are enough.
abbrev pub digits : ℕ → ℕ → List ℕ
digits zero n = []
digits (suc fuel) n =
    if ltb n 10 then (48 + n) ∷ [] else digits fuel (n / 10) ++ ((48 + n % 10) ∷ [])

unfoldable pub decimal : ℕ → List ℕ
decimal n = digits (suc n) n

-- `%02x` of a byte.
abbrev pub hex_digit : ℕ → ℕ
hex_digit n = if ltb n 10 then 48 + n else 87 + n

abbrev pub hex2 : ℕ → List ℕ
hex2 b = hex_digit (b / 16) ∷ hex_digit (b % 16) ∷ []

abbrev pub hex : List ℕ → List ℕ
hex [] = []
hex (b ∷ bs) = hex2 b ++ hex bs

abbrev pub printable : ℕ → Bool
printable b = leb 0x20 b && (ltb b 0x7F && (not (b == 34) && not (b == 92)))

abbrev pub ascii : List ℕ → List ℕ
ascii [] = []
ascii (b ∷ bs) = (if printable b then b else 46) ∷ ascii bs

unfoldable pub append_value_head : List ℕ → LldpTlvRow → List ℕ
append_value_head out r =
    let n = head_size r.tlv_length in
    out
    ++ (codes "\"hex\":\""
        ++ (hex (take n r.value_head)
            ++ (codes "\",\"ascii\":\"" ++ (ascii (take n r.value_head) ++ codes "\""))))

abbrev pub cap_names : List (List ℕ)
cap_names =
    codes "Other"
    ∷ codes "Repeater"
    ∷ codes "Bridge"
    ∷ codes "WLAN-AP"
    ∷ codes "Router"
    ∷ codes "Telephone"
    ∷ codes "DOCSIS"
    ∷ codes "Station"
    ∷ codes "C-VLAN"
    ∷ codes "S-VLAN"
    ∷ codes "TPMR"
    ∷ []

-- The names of the bits that are set, from bit `i` on.
abbrev pub caps_from : (first : Bool) (i : ℕ) → List (List ℕ) → ℕ → List ℕ
caps_from first i [] bits = []
caps_from first i (name ∷ names) bits =
    if bit_and bits (shl 1 i) == 0
    then caps_from first (suc i) names bits
    else (if first then [] else codes ",")
      ++ (codes "\"" ++ (name ++ (codes "\"" ++ caps_from false (suc i) names bits)))

unfoldable pub append_caps : List ℕ → (key : List ℕ) → (bits : ℕ) → List ℕ
append_caps out key bits =
    out ++ (codes "\"" ++ (key ++ (codes "\":[" ++ (caps_from true 0 cap_names bits ++ codes "]"))))

-- `"key":n,`.
abbrev pub number_field : List ℕ → ℕ → List ℕ
number_field key n = codes "\"" ++ (key ++ (codes "\":" ++ (decimal n ++ codes ",")))

unfoldable pub append_decoded : List ℕ → LldpTlvRow → List ℕ
append_decoded out r =
    if r.tlv_type == lldp_ttl
    then out ++ number_field (codes "ttl_seconds") r.ttl_seconds
    else if r.tlv_type == lldp_sys_caps
    then append_caps
        (out
          ++ (number_field (codes "caps_supported") r.caps_supported
              ++ number_field (codes "caps_enabled") r.caps_enabled))
        (codes "caps") r.caps_enabled
      ++ codes ","
    else if r.tlv_type == lldp_mgmt_addr
    then out
      ++ (number_field (codes "mgmt_addr_subtype") r.mgmt_addr_subtype
          ++ (number_field (codes "mgmt_iface_subtype") r.mgmt_iface_subtype
              ++ number_field (codes "mgmt_iface_number") r.mgmt_iface_number))
    else out

unfoldable pub row_to_json : List ℕ → LldpTlvRow → List ℕ
row_to_json out r =
    append_value_head
      (append_decoded
        (out
          ++ (codes "{"
              ++ (number_field (codes "packet_id") r.packet_id
                  ++ (number_field (codes "rule_id") r.rule_id
                      ++ (number_field (codes "tlv_index") r.tlv_index
                          ++ (number_field (codes "type") r.tlv_type
                              ++ (codes "\"type_name\":\""
                                  ++ (lldp_type_name r.tlv_type
                                      ++ (codes "\","
                                          ++ (number_field (codes "length") r.tlv_length
                                              ++ (number_field (codes "subtype") r.subtype
                                                  ++ number_field (codes "value_offset")
                                                      r.value_offset)))))))))))
        r)
      r
    ++ codes "}"

unfoldable pub dump_ndjson : List ℕ → List LldpTlvRow → List ℕ
dump_ndjson out [] = out
dump_ndjson out (row ∷ rows) =
    dump_ndjson
      (row_to_json (out ++ codes "{\"table\":\"lldp\",\"row\":") row ++ (codes "}" ++ (10 ∷ [])))
      rows
