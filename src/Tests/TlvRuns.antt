-- ===== src/Tests/TlvRuns.antt =====
-- The TLV cursors: runs, and the theorems at concrete regions.
use nanotins.Shared.{ℕ, ◌+◌, ◌-◌, ◌*◌, ◌≤◌, ◌%◌, ◌^◌, ◌≡◌, refl, arith, List, [], ◌∷◌, ◌++◌, All}
use nanotins.Shared.{length, some}
use nanotins.Tlv
use nanotins.Tlv.{TlvRecord, TlvPad, TlvCursor, tlv_records, tlv_count, repeat_at}
use nanotins.Tlv.Bounds
use nanotins.Tlv.Walk
use nanotins.Tlv.RoundTrip
use nanotins.Tlv.RoundTrip.{Ipv6Option, pad1, option}
use nanotins.SomeipTlv
use nanotins.SomeipTlv.{MemberRecord, MemberCursor, someip_tlv_members, someip_tlv_count}
use nanotins.SomeipTlv.Bounds as MemberBounds
use nanotins.SomeipTlv.Walk as MemberWalk

-- A Pad1, a router alert of two bytes, and a byte of another header.
abbrev hop_options : List ℕ
hop_options = 0 ∷ 5 ∷ 2 ∷ 7 ∷ 8 ∷ 99 ∷ []

abbrev hop_cursor : TlvCursor
hop_cursor = record { p = some 1; end = 5; pad = TlvPad.ipv6_options }

next-Advances_example : Bounds.Advances 1 5 TlvPad.ipv6_options (Tlv.next hop_options hop_cursor)
next-Advances_example = Bounds.next-Advances hop_options hop_cursor 1 refl (omega arith)

tlv_count-records_example :
    (rs : List TlvRecord) × (tlv_records hop_options 0 5 TlvPad.ipv6_options ≡ some rs)
    × (tlv_count hop_options 0 5 TlvPad.ipv6_options ≡ some (length rs % 2 ^ 32))
    × (length rs ≤ 5 - 0)
    × All (Walk.Within 0 5) rs
tlv_count-records_example = Walk.tlv_count-records hop_options 0 5 TlvPad.ipv6_options (omega arith)

abbrev laid_out : List Ipv6Option
laid_out = pad1 ∷ option 5 (7 ∷ 8 ∷ []) ∷ []

tlv_records-encode_all_example :
    tlv_records
      ((3 ∷ []) ++ (RoundTrip.encode_all laid_out ++ (99 ∷ [])))
      1
      (1 + length (RoundTrip.encode_all laid_out))
      TlvPad.ipv6_options
    ≡ some (RoundTrip.records_of 1 laid_out)
tlv_records-encode_all_example =
    RoundTrip.tlv_records-encode_all laid_out (3 ∷ []) (99 ∷ []) (omega arith)

-- A 16-bit member of id 1, and a member of id 2 with a length byte.
abbrev members : List ℕ
members = 0x10 ∷ 1 ∷ 0 ∷ 9 ∷ 0x50 ∷ 2 ∷ 1 ∷ 42 ∷ []

member_next-Advances_example :
    MemberBounds.Advances 0 8 (SomeipTlv.next members (record { p = some 0; end = 8 }))
member_next-Advances_example =
    MemberBounds.member_next-Advances members (record { p = some 0; end = 8 }) 0 refl (omega arith)

someip_tlv_count-members_example :
    (rs : List MemberRecord) × (someip_tlv_members members 0 8 ≡ some rs)
    × (someip_tlv_count members 0 8 ≡ some (length rs % 2 ^ 32))
    × (2 * length rs ≤ 8 - 0)
    × All (MemberWalk.Within 0 8) rs
someip_tlv_count-members_example = MemberWalk.someip_tlv_count-members members 0 8 (omega arith)
