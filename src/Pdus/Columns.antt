-- ===== src/Pdus/Columns.antt =====
-- nanotins/include/nanotins/protocol_decode.hpp: the order of the six columns, their keys.
use nanotins.Shared.{ℕ, ◌≡◌, refl, sym, ap, ◌∙◌, get_or, [], ◌∷◌}
use nanotins.Bulk.{Key}
use nanotins.Pdus.{Pdu, ethernet, vlan, ipv4, ipv6, tcp, udp}

-- The position in DecodedPdus::columns().
abbrev pub column_id : Pdu → ℕ
column_id ethernet = 0
column_id vlan = 1
column_id ipv4 = 2
column_id ipv6 = 3
column_id tcp = 4
column_id udp = 5

abbrev column_at : ℕ → Pdu
column_at k = get_or (ethernet ∷ vlan ∷ ipv4 ∷ ipv6 ∷ tcp ∷ udp ∷ []) k ethernet

pub column_at-column_id : (p : Pdu) → column_at (column_id p) ≡ p
column_at-column_id ethernet = refl
column_at-column_id vlan = refl
column_at-column_id ipv4 = refl
column_at-column_id ipv6 = refl
column_at-column_id tcp = refl
column_at-column_id udp = refl

instance abbrev pub pdu_key : Key Pdu
pdu_key = record {
  id = column_id;
  id_inj = λ p q ids. sym (column_at-column_id p) ∙ ap column_at ids ∙ column_at-column_id q;
}
