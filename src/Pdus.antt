-- ===== src/Pdus.antt =====
-- nanotins/include/nanotins/protocols.hpp, with host() of soatins/include/soatins/endian.hpp and
-- word_host() of soatins/include/soatins/bits.hpp: the wire structs of L2 to L4, and the overlay of a
-- struct on packet bytes. A struct is packed and is copied byte by byte, so a value of it is its
-- bytes, and a member is the part of the bytes that the member's place in the struct gives it.
pub mod Columns
pub mod Layers
pub mod Walk
pub mod Chain
pub mod Trace
pub mod Window
pub mod Passes
pub mod Agreement
pub mod Remainder
use nanotins.Shared.{ℕ, ◌+◌, ◌-◌, ◌*◌, ◌%◌, ◌^◌, bit_or, List, [], ◌∷◌, length, take, drop}
use nanotins.Shared.{Option, none, some, Bool, ltb, leb, if◌then◌else◌, ◌>>=◌, ◌==◌, ◌||◌}
use nanotins.Shared.Bits.{shl}
use nanotins.WireSpec.{read_bytes}
use Prim.Native.String.{String}
use text.Mathlib.Text.{◌==◌ as str_eq}

-- A window of the memory; a null pointer is `none`.
pub record Bytes : Type 0 where
  pub ptr : Option ℕ
  pub len : ℕ

abbrev pub empty_bytes : Bytes
empty_bytes = record { ptr = none; len = 0 }

-- A pointer moved on. The null pointer is never moved by more than 0.
abbrev pub advance_ptr : Option ℕ → ℕ → Option ℕ
advance_ptr none off = none
advance_ptr (some p) off = some (p + off)

unfoldable pub subspan : Bytes → ℕ → Bytes
subspan b off =
    if leb off b.len then record { ptr = advance_ptr b.ptr off; len = b.len - off } else empty_bytes

pub data Pdu : Type 0 where
  ethernet vlan ipv4 ipv6 tcp udp : Pdu

-- The members of each struct in order, with their sizes.
abbrev pub members : Pdu → List (String × ℕ)
members ethernet = ("dst", 6) ∷ ("src", 6) ∷ ("ethertype", 2) ∷ []
members vlan = ("tci", 2) ∷ ("inner_ethertype", 2) ∷ []
members ipv4 =
    ("ver_ihl", 1)
    ∷ ("dscp_ecn", 1)
    ∷ ("total_length", 2)
    ∷ ("identification", 2)
    ∷ ("flags_frag", 2)
    ∷ ("ttl", 1)
    ∷ ("protocol", 1)
    ∷ ("checksum", 2)
    ∷ ("src", 4)
    ∷ ("dst", 4)
    ∷ []
members ipv6 =
    ("vtf", 4)
    ∷ ("payload_length", 2)
    ∷ ("next_header", 1)
    ∷ ("hop_limit", 1)
    ∷ ("src", 16)
    ∷ ("dst", 16)
    ∷ []
members tcp =
    ("src_port", 2)
    ∷ ("dst_port", 2)
    ∷ ("seq", 4)
    ∷ ("ack", 4)
    ∷ ("off_flags", 2)
    ∷ ("window", 2)
    ∷ ("checksum", 2)
    ∷ ("urgent_ptr", 2)
    ∷ []
members udp = ("src_port", 2) ∷ ("dst_port", 2) ∷ ("length", 2) ∷ ("checksum", 2) ∷ []

abbrev pub total_size : List (String × ℕ) → ℕ
total_size [] = 0
total_size ((m, n) ∷ ms) = n + total_size ms

-- `sizeof`.
abbrev pub size_of : Pdu → ℕ
size_of p = total_size (members p)

-- `for (k = 0; k < sizeof(T); ++k) v = T(v << 8) | raw[k];` in `bits` bits.
abbrev pub host_loop : ℕ → List ℕ → ℕ → ℕ
host_loop bits [] v = v
host_loop bits (b ∷ raw) v = host_loop bits raw (bit_or (shl v 8 % 2 ^ bits) b)

unfoldable pub host : List ℕ → ℕ
host raw = host_loop (8 * length raw) raw 0

-- The bytes of a member.
unfoldable pub member_bytes : List (String × ℕ) → String → List ℕ → List ℕ
member_bytes [] t raw = []
member_bytes ((m, n) ∷ ms) t raw = if str_eq m t then take n raw else member_bytes ms t (drop n raw)

-- The value of a big-endian or one-byte member, and the word of a bit pack.
unfoldable pub word_host : Pdu → String → List ℕ → ℕ
word_host p t raw = host (member_bytes (members p) t raw)

abbrev pub ethertype_ipv4 : ℕ
ethertype_ipv4 = 0x0800

abbrev pub ethertype_ipv6 : ℕ
ethertype_ipv6 = 0x86DD

abbrev pub ethertype_vlan : ℕ
ethertype_vlan = 0x8100

abbrev pub ethertype_qinq : ℕ
ethertype_qinq = 0x88A8

abbrev pub ip_proto_tcp : ℕ
ip_proto_tcp = 6

abbrev pub ip_proto_udp : ℕ
ip_proto_udp = 17

abbrev pub link_type_ethernet : ℕ
link_type_ethernet = 1

-- `overlay`: `some none` is false, and `some (some raw)` the struct copied out.
unfoldable pub overlay : List ℕ → Bytes → ℕ → Pdu → Option (Option (List ℕ))
overlay mem b off p =
    if ltb b.len (off + size_of p)
    then some none
    else (b.ptr >>= λ q. read_bytes mem (q + off) (size_of p) >>= λ raw. some (some raw))

-- The condition of the loop over VLAN tags.
abbrev pub is_tagged : ℕ → Bool
is_tagged ethertype = (ethertype == ethertype_vlan) || (ethertype == ethertype_qinq)
