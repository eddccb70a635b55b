-- ===== src/Dag/Children/SomeipSd/Wire.antt =====
-- someip_sd.hpp: the traversal reads back the options that were laid out on the wire.
use nanotins.Shared.{ℕ, zero, suc, ◌+◌, ◌-◌, ◌^◌, ◌<◌, ◌≡◌, refl, arith, subst}
use nanotins.Shared.{List, [], ◌∷◌, ◌++◌, length, length-append, All, Option, some}
use nanotins.Shared.{>>=-same, leb, ltb, true, false}
use nanotins.Shared.Bits.{u8, u32}
use nanotins.Shared.Buffer.{byte_at}
use nanotins.WireSpec.BigEndian.{be16, be32, Holds, Holds-drop, Holds-take, read-be16, read-be32}
use nanotins.Dag.Children.{fold_list}
use nanotins.Dag.Children.SomeipSd.{visit_options, visit_option_array, clamp}
use nanotins.Dag.Children.SomeipSd.Visits.{SdOption, seen_option}

-- An option on the wire: the length of its value, its type, and the value.
pub record WireOption : Type 0 where
  pub type : ℕ
  pub value : List ℕ

abbrev pub encode_option : WireOption → List ℕ
encode_option o = be16 (length o.value) ++ (o.type ∷ o.value)

abbrev pub encode_options : List WireOption → List ℕ
encode_options [] = []
encode_options (o ∷ os) = encode_option o ++ encode_options os

abbrev pub concat : List (List ℕ) → List ℕ
concat [] = []
concat (e ∷ es) = e ++ concat es

-- The options as the traversal sees them, from offset `at` on.
abbrev pub option_list : (at oi : ℕ) → List WireOption → List SdOption
option_list at oi [] = []
option_list at oi (o ∷ os) =
    (u8 oi, at, length o.value, o.type) ∷ option_list (at + 3 + length o.value) (u32 (oi + 1)) os

visit_options-Holds :
    (S : Type 0) (os : List WireOption) (fuel : ℕ) (mem : List ℕ) (at end oi : ℕ)
    (on : S → ℕ → ℕ → ℕ → ℕ → Option S) (s : S)
    → All (λ o. length o.value < 2 ^ 16) os
    → Holds mem at (encode_options os)
    → end ≡ at + length (encode_options os)
    → length (encode_options os) < fuel
    → visit_options fuel mem at end oi on s ≡ fold_list (seen_option on) s (option_list at oi os)
unfolding visit_options
visit_options-Holds S os zero mem at end oi on s ok h e room = absurd (omega arith)
visit_options-Holds S [] (suc fuel) mem at end oi on s ok h e room =
    let past : leb (at + 3) end ≡ false = ground arith in rw (past, visit_options) refl
visit_options-Holds S (o ∷ os) (suc fuel) mem at end oi on s (short, ok) h e room =
    let n = length o.value in
    let behind = o.type ∷ (o.value ++ encode_options os) in
    let size : length (encode_options (o ∷ os)) ≡ 3 + n + length (encode_options os) =
      omega (arith, length-append o.value (encode_options os)) in
    let head : leb (at + 3) end ≡ true = ground arith in
    let whole : ltb end (at + 3 + n) ≡ false = ground arith in
    let read =
      read-be16 mem at 0 n short
        (subst (λ p. Holds mem p (be16 n)) (omega arith) (Holds-take mem at (be16 n) behind h)) in
    let tail : Holds mem (at + 2) (o.type ∷ (o.value ++ encode_options os)) =
      Holds-drop mem at (be16 n) behind h in
    let kind : byte_at mem (at + 2) ≡ some o.type = tail.0 in
    let rest : Holds mem (at + 3 + n) (encode_options os) =
      subst (λ p. Holds mem p (encode_options os)) (omega arith)
        (Holds-drop mem (at + 2 + 1) o.value (encode_options os) tail.1) in
    rw (head, visit_options)
      (rw read (
        rw kind (
          rw whole (
            >>=-same (on s (u8 oi) at n o.type) (λ s'.
              visit_options-Holds S os fuel mem (at + 3 + n) end (u32 (oi + 1)) on s' ok rest
                (omega arith) (omega arith))))))

pub visit_option_array-Holds :
    (S : Type 0) (os : List WireOption) (mem : List ℕ) (at end : ℕ)
    (on : S → ℕ → ℕ → ℕ → ℕ → Option S) (s : S)
    → All (λ o. length o.value < 2 ^ 16) os
    → length (encode_options os) < 2 ^ 32
    → Holds mem at (be32 (length (encode_options os)) ++ encode_options os)
    → end ≡ at + 4 + length (encode_options os)
    → visit_option_array mem at end on s ≡ fold_list (seen_option on) s (option_list (at + 4) 0 os)
unfolding visit_option_array
visit_option_array-Holds S os mem at end on s ok small h e =
    let n = length (encode_options os) in
    let room : ltb end (at + 4) ≡ false = ground arith in
    let read = read-be32 mem at 0 n small (
      subst (λ p. Holds mem p (be32 n)) (omega arith)
        (Holds-take mem at (be32 n) (encode_options os) h)) in
    let region : clamp end (at + 4 + n) ≡ end = ground arith in
    rw room (
      rw read (
        rw region (
          visit_options-Holds S os (suc (end - (at + 4))) mem (at + 4) end 0 on s ok
            (Holds-drop mem at (be32 n) (encode_options os) h) e (omega arith))))
