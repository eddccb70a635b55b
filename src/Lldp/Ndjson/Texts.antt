-- ===== src/Lldp/Ndjson/Texts.antt =====
-- examples/lldp/lldp.hpp: what the NDJSON dump appends for a row is printable ASCII.
use nanotins.Shared.{
  ℕ, zero, suc, ◌+◌, ◌*◌, ◌/◌, ◌%◌, ◌-◌, ◌<◌, ◌≡◌, refl, ◌∙◌, arith, List, [], ◌∷◌, ◌++◌,
}
use nanotins.Shared.{
  Bool, true, false, ◌==◌, take, ltb, leb, ◌&&◌, if◌then◌else◌, All, Bool-cases, inl, inr,
}
use nanotins.Shared.{bit_and}
use nanotins.Shared.Bits.{shl}
use nanotins.Dpar.Texts.{codes}
use nanotins.Lldp.Ndjson.{
  switch, type_names, lldp_type_name, digits, decimal, hex_digit, hex, printable, ascii, caps_from,
  number_field,
}

-- Every byte is a printable ASCII character.
abbrev pub is_text : List ℕ → Bool
is_text [] = true
is_text (b ∷ bs) = (leb 0x20 b && ltb b 0x7F) && is_text bs

pub record IsText (bs : List ℕ) : Type 0 where
  pub all : is_text bs ≡ true

pub literal : {bs : List ℕ} → is_text bs ≡ true → IsText bs
literal h = record { all = h }

pub IsText-append : (xs ys : List ℕ) → IsText xs → IsText ys → IsText (xs ++ ys)
IsText-append xs ys hx hy = literal (go xs hx.all)
  where
    go : (xs : List ℕ) → is_text xs ≡ true → is_text (xs ++ ys) ≡ true
    go [] h = hy.all
    go (x ∷ xs) h = elim (Bool-cases (leb 0x20 x && ltb x 0x7F)) [
      | inl clean ↦ rw clean (go xs (rw clean at h))
      | inr bad ↦ cc (rw bad at h)
    ]

-- The number that a decimal text states.
abbrev decimal_value : ℕ → List ℕ → ℕ
decimal_value v [] = v
decimal_value v (d ∷ ds) = decimal_value (v * 10 + (d - 48)) ds

decimal_value-append :
    (v : ℕ) (xs : List ℕ) (d : ℕ)
    → decimal_value v (xs ++ (d ∷ [])) ≡ decimal_value v xs * 10 + (d - 48)
decimal_value-append v [] d = refl
decimal_value-append v (a ∷ xs) d = decimal_value-append (v * 10 + (a - 48)) xs d

digits-value : (fuel n : ℕ) → n < fuel → decimal_value 0 (digits fuel n) ≡ n
digits-value zero n h = absurd (omega arith)
digits-value (suc fuel) n h = elim (Bool-cases (ltb n 10)) [
  | inl last ↦ rw last (omega arith)
  | inr more ↦ rw more (
      decimal_value-append 0 (digits fuel (n / 10)) (48 + n % 10)
      ∙ ground (arith, digits-value fuel (n / 10) (ground arith)))
]

-- The fuel of `decimal` is enough: the text states the number.
pub decimal-value : (n : ℕ) → decimal_value 0 (decimal n) ≡ n
unfolding decimal
decimal-value n = digits-value (suc n) n (omega arith)

one-IsText : (d : ℕ) → 31 < d → d < 127 → IsText (d ∷ [])
one-IsText d low high =
    let a : leb 0x20 d ≡ true = ground arith in
    let b : ltb d 0x7F ≡ true = ground arith in literal (rw a (rw b refl))

digits-IsText : (fuel n : ℕ) → IsText (digits fuel n)
digits-IsText zero n = literal refl
digits-IsText (suc fuel) n = elim (Bool-cases (ltb n 10)) [
  | inl last ↦ rw last (one-IsText (48 + n) (omega arith) (ground arith))
  | inr more ↦ rw more (
      IsText-append (digits fuel (n / 10)) _ (digits-IsText fuel (n / 10))
        (one-IsText (48 + n % 10) (omega arith) (omega arith)))
]

pub number_field-IsText : (key : List ℕ) (n : ℕ) → IsText key → IsText (number_field key n)
unfolding decimal
number_field-IsText key n h = IsText-append (codes "\"") _ (literal refl) (
    IsText-append key _ h (
      IsText-append (codes "\":") _ (literal refl)
        (IsText-append (decimal n) _ (digits-IsText (suc n) n) (literal refl))))

switch-IsText :
    (t : ℕ) (cases : List (ℕ × List ℕ)) (default : List ℕ)
    → IsText default
    → All (λ c. IsText c.1) cases
    → IsText (switch t cases default)
switch-IsText t [] default hd h = hd
switch-IsText t ((k, text) ∷ cases) default hd (h, hs) = elim (Bool-cases (t == k)) [
  | inl same ↦ rw same h
  | inr other ↦ rw other (switch-IsText t cases default hd hs)
]

pub lldp_type_name-IsText : (t : ℕ) → IsText (lldp_type_name t)
unfolding lldp_type_name
lldp_type_name-IsText t = switch-IsText t type_names (codes "unknown") (literal refl) (
    (
      literal refl,
      (
        literal refl,
        (
          literal refl,
          (
            literal refl,
            (
              literal refl,
              (literal refl, (literal refl, (literal refl, (literal refl, (literal refl, tt))))),
            ),
          ),
        ),
      ),
    ))

pub caps_from-IsText :
    (first : Bool) (i : ℕ) (names : List (List ℕ)) (bits : ℕ)
    → All (λ t. IsText t) names
    → IsText (caps_from first i names bits)
caps_from-IsText first i [] bits h = literal refl
caps_from-IsText first i (name ∷ names) bits (h, hs) =
    elim (Bool-cases (bit_and bits (shl 1 i) == 0)) [
      | inl clear ↦ rw clear (caps_from-IsText first (suc i) names bits hs)
      | inr set ↦ rw set (
          IsText-append (if first then [] else codes ",") _ (comma first) (
            IsText-append (codes "\"") _ (literal refl) (
              IsText-append name _ h (
                IsText-append (codes "\"") _ (literal refl)
                  (caps_from-IsText false (suc i) names bits hs)))))
    ]
  where
    comma : (first : Bool) → IsText (if first then [] else codes ",")
    comma true = literal refl
    comma false = literal refl

hex_digit-IsText : (n : ℕ) → n < 16 → IsText (hex_digit n ∷ [])
hex_digit-IsText n h = elim (Bool-cases (ltb n 10)) [
  | inl small ↦ rw small (one-IsText (48 + n) (omega arith) (ground arith))
  | inr big ↦ rw big (one-IsText (87 + n) (omega arith) (omega arith))
]

pub hex-IsText : (bs : List ℕ) → All (λ b. b < 256) bs → IsText (hex bs)
hex-IsText [] h = literal refl
hex-IsText (b ∷ bs) (h, hs) =
    IsText-append (hex_digit (b / 16) ∷ []) _ (hex_digit-IsText (b / 16) (omega arith)) (
      IsText-append (hex_digit (b % 16) ∷ []) _ (hex_digit-IsText (b % 16) (omega arith))
        (hex-IsText bs hs))

pub ascii-IsText : (bs : List ℕ) → IsText (ascii bs)
ascii-IsText [] = literal refl
ascii-IsText (b ∷ bs) = elim (Bool-cases (printable b)) [
  | inl clean ↦ rw clean (
      IsText-append (b ∷ []) (ascii bs) (one-IsText b (ground arith) (ground arith))
        (ascii-IsText bs))
  | inr bad ↦ rw bad (IsText-append (46 ∷ []) (ascii bs) (literal refl) (ascii-IsText bs))
]

pub take-bytes : (n : ℕ) (bs : List ℕ) → All (λ b. b < 256) bs → All (λ b. b < 256) (take n bs)
take-bytes zero bs h = tt
take-bytes (suc n) [] h = tt
take-bytes (suc n) (b ∷ bs) (h, hs) = (h, take-bytes n bs hs)
