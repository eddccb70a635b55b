-- ===== src/Dag/Children/SomeipSd.antt =====
-- nanotins/include/nanotins/someip_sd.hpp and someip_sd_bulk.hpp: the entries and the options of a
-- SOME/IP service discovery message, and the traversal that visits them. SomeipSd/Tables has the
-- child tables that they fill and the passes.
pub mod Tables
pub mod Visits
pub mod Wire
pub mod RoundTrip
pub mod Passes
pub mod Agreement
use nanotins.Shared.{
  ℕ, zero, suc, ◌+◌, ◌-◌, ◌*◌, ◌/◌, List, ◌++◌, length, replicate, Option, none, some,
}
use nanotins.Shared.{Bool, true, false, not, ◌&&◌, ◌||◌, ltb, leb, ◌==◌, if◌then◌else◌, ◌>>=◌}
use nanotins.Shared.Bits.{u8, u32}
use nanotins.Shared.Buffer.{byte_at}
use nanotins.WireSpec.{big, view, read_bytes, read_scalar_at}
use nanotins.WireSpec.Protocols.Someip.{someip_spec, someip_sd_header_spec}

abbrev pub someip_header_len : ℕ
someip_header_len = 16

abbrev pub someip_sd_service_id : ℕ
someip_sd_service_id = 0xFFFF

abbrev pub someip_sd_method_id : ℕ
someip_sd_method_id = 0x8100

abbrev pub someip_sd_entry_size : ℕ
someip_sd_entry_size = 16

abbrev pub someip_sd_preamble_len : ℕ
someip_sd_preamble_len = 8

-- Endpoint, multicast and SD endpoint options.
abbrev pub is_v4 : ℕ → Bool
is_v4 type = type == 0x04 || type == 0x14 || type == 0x24

abbrev pub is_v6 : ℕ → Bool
is_v6 type = type == 0x06 || type == 0x16 || type == 0x26

-- What sd_decode_endpoint returns and writes.
pub record Endpoint : Type 0 where
  pub is_endpoint : Bool
  pub addr : List ℕ
  pub l4proto : ℕ
  pub port : ℕ

abbrev pub no_endpoint : Bool → Endpoint
no_endpoint b = record { is_endpoint = b; addr = replicate 16 0; l4proto = 0; port = 0 }

-- The address of `n` bytes, a reserved byte, the protocol and the port.
abbrev pub read_endpoint : List ℕ → (opt end n : ℕ) → Option Endpoint
read_endpoint pkt opt end n =
    if ltb end (opt + 4 + n + 1 + 1 + 2)
    then some (no_endpoint true)
    else (read_bytes pkt (opt + 4) n >>= λ a. byte_at pkt (opt + 4 + n + 1) >>= λ proto.
        read_scalar_at big pkt (opt + 4 + n + 1 + 1) 0 2 >>= λ port. some (record {
          is_endpoint = true;
          addr = a ++ replicate (16 - n) 0;
          l4proto = proto;
          port = port;
        }))

unfoldable pub sd_decode_endpoint : List ℕ → (opt type end : ℕ) → Option Endpoint
sd_decode_endpoint pkt opt type end =
    if not (is_v4 type) && not (is_v6 type)
    then some (no_endpoint false)
    else read_endpoint pkt opt end (if is_v4 type then 4 else 16)

-- The loop over entries: entry `i` is next, `left` are left.
unfoldable pub visit_entries {ℓ} :
    {S : Type ℓ} → (entries i left : ℕ) → (S → (index at : ℕ) → Option S) → S → Option S
visit_entries entries i zero on s = some s
visit_entries entries i (suc left) on s = on s (u8 i) (entries + i * someip_sd_entry_size) >>= λ s'.
    visit_entries entries (i + 1) left on s'

-- The loop over options.
unfoldable pub visit_options {ℓ} :
    {S : Type ℓ}
    → ℕ
    → List ℕ
    → (opt opt_end oi : ℕ) → (S → (index at len type : ℕ) → Option S)
    → S
    → Option S
visit_options zero pkt opt opt_end oi on s = none
visit_options (suc fuel) pkt opt opt_end oi on s = elim (leb (opt + 3) opt_end) [
  | false ↦ some s
  | true ↦ read_scalar_at big pkt opt 0 2 >>= λ len. byte_at pkt (opt + 2) >>= λ type.
      elim (ltb opt_end (opt + 3 + len)) [
        | true ↦ some s
        | false ↦ on s (u8 oi) opt len type >>= λ s'.
            visit_options fuel pkt (opt + 3 + len) opt_end (u32 (oi + 1)) on s'
      ]
]

abbrev pub clamp : (end x : ℕ) → ℕ
clamp end x = if ltb end x then end else x

-- The options array behind the declared end of the entries.
unfoldable pub visit_option_array {ℓ} :
    {S : Type ℓ}
    → List ℕ
    → (opt_len_at end : ℕ) → (S → (index at len type : ℕ) → Option S)
    → S
    → Option S
visit_option_array pkt opt_len_at end on s =
    if ltb end (opt_len_at + 4)
    then some s
    else (read_scalar_at big pkt opt_len_at 0 4 >>= λ options_len.
        let opt = opt_len_at + 4 in
        let opt_end = clamp end (opt + options_len) in
        visit_options (suc (opt_end - opt)) pkt opt opt_end 0 on s)

-- The SD payload from `sd` to `end`.
unfoldable pub visit_sd {ℓ} :
    {S : Type ℓ}
    → List ℕ
    → (sd end : ℕ) → (S → (index at : ℕ) → Option S)
    → (S → (index at len type : ℕ) → Option S)
    → S
    → Option S
visit_sd pkt sd end on_entry on_option s =
    if ltb end (sd + someip_sd_preamble_len)
    then some s
    else (view pkt sd someip_sd_header_spec "entries_length" >>= λ entries_len.
        let entries = sd + someip_sd_preamble_len in
        let entries_end = clamp end (entries + entries_len) in
        visit_entries entries 0 (u32 ((entries_end - entries) / someip_sd_entry_size)) on_entry s
        >>= λ s'. visit_option_array pkt (entries + entries_len) end on_option s')

unfoldable pub for_each_sd_child {ℓ} :
    {S : Type ℓ}
    → List ℕ
    → (off : ℕ) → (S → (index at : ℕ) → Option S)
    → (S → (index at len type : ℕ) → Option S)
    → S
    → Option S
for_each_sd_child pkt off on_entry on_option s =
    if ltb (length pkt) (off + someip_header_len)
    then some s
    else (view pkt off someip_spec "service_id" >>= λ service.
        view pkt off someip_spec "method_id" >>= λ method.
        if not (service == someip_sd_service_id) || not (method == someip_sd_method_id)
        then some s
        else (view pkt off someip_spec "length" >>= λ len.
            let end = if leb (off + 8 + len) (length pkt) then off + 8 + len else length pkt in
            visit_sd pkt (off + someip_header_len) end on_entry on_option s))
