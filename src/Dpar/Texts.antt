-- ===== src/Dpar/Texts.antt =====
-- nanotins/include/nanotins/dpar.hpp: the texts of the rules compiler, std::string as a list of
-- bytes, with strtoull of the C library at base 0.
use nanotins.Shared.{
  ℕ, zero, suc, ◌+◌, ◌-◌, ◌*◌, ◌%◌, ◌^◌, List, [], ◌∷◌, ◌++◌, Option, none, some, Bool, true, false,
}
use nanotins.Shared.{ltb, leb, if◌then◌else◌, ◌==◌, ◌&&◌, ◌||◌}
use Prim.Native.Char.{code}
use Prim.Native.String.{String}

-- The bytes of a literal.
abbrev pub codes : String → List ℕ
codes String.[] = []
codes (String.◌∷◌ c s) = code c ∷ codes s

abbrev pub bytes_eq : List ℕ → List ℕ → Bool
bytes_eq [] [] = true
bytes_eq (a ∷ as') (b ∷ bs) = (a == b) && bytes_eq as' bs
bytes_eq _ _ = false

-- `c_str()` as the C functions read it: up to the first zero.
abbrev pub c_str : List ℕ → List ℕ
c_str [] = []
c_str (zero ∷ s) = []
c_str (suc c ∷ s) = suc c ∷ c_str s

-- The lines of a text, the last one included when it is empty.
abbrev pub lines_from : (cur : List ℕ) → List ℕ → List (List ℕ)
lines_from cur [] = cur ∷ []
lines_from cur (c ∷ cs) = elim (c == 10) [
  | true ↦ cur ∷ lines_from [] cs
  | false ↦ lines_from (cur ++ (c ∷ [])) cs
]

-- Space, tab, carriage return.
abbrev pub is_blank : ℕ → Bool
is_blank c = (c == 32) || ((c == 9) || (c == 13))

abbrev pub push_token : List ℕ → List (List ℕ) → List (List ℕ)
push_token [] ts = ts
push_token (c ∷ cs) ts = (c ∷ cs) ∷ ts

-- The tokens, `cur` being the one that is read.
abbrev pub tokens_from : (cur : List ℕ) → List ℕ → List (List ℕ)
tokens_from cur [] = push_token cur []
tokens_from cur (c ∷ cs) = elim (is_blank c) [
  | true ↦ push_token cur (tokens_from [] cs)
  | false ↦ tokens_from (cur ++ (c ∷ [])) cs
]

unfoldable pub tokenize : List ℕ → List (List ℕ)
tokenize line = tokens_from [] line

-- `find(c)` and the two parts around it.
unfoldable pub split_at : (c : ℕ) → List ℕ → Option (List ℕ × List ℕ)
split_at c [] = none
split_at c (b ∷ s) = elim (b == c) [
  | true ↦ some ([], s)
  | false ↦ elim (split_at c s) [ none ↦ none | some (l, r) ↦ some (b ∷ l, r) ]
]

-- `isspace`.
abbrev pub is_space : ℕ → Bool
is_space c = (c == 32) || (leb 9 c && leb c 13)

abbrev pub skip_space : List ℕ → List ℕ
skip_space [] = []
skip_space (c ∷ s) = elim (is_space c) [ true ↦ skip_space s | false ↦ c ∷ s ]

-- The value of a digit, 36 for none.
abbrev pub digit : ℕ → ℕ
digit c =
    if leb 48 c && leb c 57
    then c - 48
    else (if leb 65 c && leb c 90 then c - 55 else (if leb 97 c && leb c 122 then c - 87 else 36))

-- The digits of a base: the value, whether there is one, and the rest.
abbrev pub read_digits : (base v : ℕ) (some_digit : Bool) → List ℕ → ℕ × Bool × List ℕ
read_digits base v any [] = (v, any, [])
read_digits base v any (c ∷ s) = elim (ltb (digit c) base) [
  | true ↦ read_digits base (v * base + digit c) true s
  | false ↦ (v, any, c ∷ s)
]

-- Behind a leading `0`: hexadecimal when `x` and a hex digit follow, else octal.
abbrev pub read_zero : (all s : List ℕ) → ℕ × Bool × List ℕ
read_zero all (x ∷ d ∷ s) =
    if ((x == 120) || (x == 88)) && ltb (digit d) 16
    then read_digits 16 0 false (d ∷ s)
    else read_digits 8 0 false all
read_zero all s = read_digits 8 0 false all

abbrev pub read_number : List ℕ → ℕ × Bool × List ℕ
read_number [] = (0, false, [])
read_number (c ∷ s) = if c == 48 then read_zero (c ∷ s) s else read_digits 10 0 false (c ∷ s)

-- `+` or `-` in front: whether it is `-`, and the rest.
abbrev pub read_sign : List ℕ → Bool × List ℕ
read_sign [] = (false, [])
read_sign (c ∷ s) = if c == 45 then (true, s) else (if c == 43 then (false, s) else (false, c ∷ s))

-- An overflow gives the largest value; a `-` negates modulo 2^64.
abbrev pub signed_value : Bool → ℕ → ℕ
signed_value neg v =
    if leb (2 ^ 64) v then 2 ^ 64 - 1 else (if neg then (2 ^ 64 - v) % 2 ^ 64 else v)

-- `strtoull(s, &end, 0)`: the value, and the text from `end` on.
unfoldable pub strtoull : List ℕ → ℕ × List ℕ
strtoull s =
    let sign = read_sign (skip_space s) in
    let number = read_number sign.1 in
    if number.1 then (signed_value sign.0 number.0, number.2) else (0, s)

abbrev pub is_empty : List ℕ → Bool
is_empty [] = true
is_empty (c ∷ s) = false

-- What is returned, and `out` as it is left: on a text that is not empty the value is written also
-- when the rest of the text makes the function return false.
unfoldable pub parse_u64 : List ℕ → (out : ℕ) → Bool × ℕ
parse_u64 s out =
    if is_empty s then (false, out) else (let r = strtoull (c_str s) in (is_empty r.1, r.0))

-- Without the last element.
abbrev pub init : List ℕ → List ℕ
init [] = []
init (c ∷ []) = []
init (c ∷ d ∷ s) = c ∷ init (d ∷ s)

abbrev pub last_is : ℕ → List ℕ → Bool
last_is q [] = false
last_is q (c ∷ []) = c == q
last_is q (c ∷ d ∷ s) = last_is q (d ∷ s)

-- A text of two bytes or more between double quotes.
unfoldable pub strip_quotes : List ℕ → List ℕ
strip_quotes [] = []
strip_quotes (c ∷ []) = c ∷ []
strip_quotes (c ∷ d ∷ s) = if (c == 34) && last_is 34 (d ∷ s) then init (d ∷ s) else c ∷ d ∷ s
