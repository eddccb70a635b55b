-- ===== src/Shared/Lists.antt =====
-- Lists measured and indexed by native numbers, under the library's names.
use Prim.Native.Nat.{ℕ, zero, suc, ◌+◌, ◌-◌, ◌<◌}
use mathlib.Core.Path.{◌≡◌, refl, ap, ◌∙◌, subst}
use mathlib.Core.List.{List, [], ◌∷◌, ◌++◌}
use mathlib.Core.Option.{Option, none, some, some-injective}
use mathlib.Core.Bool.{false}
use nanotins.Shared.Tests.{◌>>=◌, ◌==◌}
use native.Mathlib.Omega.{arith}

module _ {ℓ} {A : Type ℓ} where
  abbrev pub length : List A → ℕ
  length [] = 0
  length (x ∷ xs) = suc (length xs)

  abbrev pub get_or : List A → ℕ → A → A
  get_or [] i d = d
  get_or (x ∷ xs) zero d = x
  get_or (x ∷ xs) (suc i) d = get_or xs i d

  -- A write out of bounds changes nothing.
  abbrev pub set : List A → ℕ → A → List A
  set [] i v = []
  set (x ∷ xs) zero v = v ∷ xs
  set (x ∷ xs) (suc i) v = x ∷ set xs i v

  abbrev pub take : ℕ → List A → List A
  take zero xs = []
  take (suc n) [] = []
  take (suc n) (x ∷ xs) = x ∷ take n xs

  abbrev pub drop : ℕ → List A → List A
  drop zero xs = xs
  drop (suc n) [] = []
  drop (suc n) (x ∷ xs) = drop n xs

  abbrev pub replicate : ℕ → A → List A
  replicate zero a = []
  replicate (suc n) a = a ∷ replicate n a

  abbrev pub All {κ} : (A → Type κ) → List A → Type κ
  All P [] = Unit {κ}
  All P (x ∷ xs) = P x × All P xs

  pub All-every {κ} : {P : A → Type κ} → ((x : A) → P x) → (xs : List A) → All P xs
  All-every h [] = tt
  All-every h (x ∷ xs) = (h x, All-every h xs)

  pub All-map {κ μ} :
      (P : A → Type κ) (Q : A → Type μ)
      → ((x : A) → P x → Q x)
      → (xs : List A) → All P xs
      → All Q xs
  All-map P Q f [] h = tt
  All-map P Q f (x ∷ xs) (h, hs) = (f x h, All-map P Q f xs hs)

  pub All-append {κ} : (P : A → Type κ) (xs ys : List A) → All P xs → All P ys → All P (xs ++ ys)
  All-append P [] ys h k = k
  All-append P (x ∷ xs) ys (h, hs) k = (h, All-append P xs ys hs k)

  pub length-append : (xs ys : List A) → length (xs ++ ys) ≡ length xs + length ys
  length-append [] ys = omega arith
  length-append (x ∷ xs) ys = omega (arith, length-append xs ys)

  pub length-drop : (n : ℕ) (xs : List A) → length (drop n xs) ≡ length xs - n
  length-drop zero xs = omega arith
  length-drop (suc n) [] = omega arith
  length-drop (suc n) (x ∷ xs) = omega (arith, length-drop n xs)

  pub length-set : (xs : List A) (i : ℕ) (v : A) → length (set xs i v) ≡ length xs
  length-set [] i v = refl
  length-set (x ∷ xs) zero v = refl
  length-set (x ∷ xs) (suc i) v = ap suc (length-set xs i v)

  pub get_or-append_left :
      (xs ys : List A) (i : ℕ) (d : A) → i < length xs → get_or (xs ++ ys) i d ≡ get_or xs i d
  get_or-append_left [] ys i d h = absurd (omega arith)
  get_or-append_left (x ∷ xs) ys zero d h = refl
  get_or-append_left (x ∷ xs) ys (suc i) d h = get_or-append_left xs ys i d (omega arith)

  pub get_or-append_right :
      (xs ys : List A) (i : ℕ) (d : A) → get_or (xs ++ ys) (length xs + i) d ≡ get_or ys i d
  get_or-append_right [] ys i d = ap (λ k. get_or ys k d) (omega arith)
  get_or-append_right (x ∷ xs) ys i d =
      ap (λ k. get_or (x ∷ (xs ++ ys)) k d) shift ∙ get_or-append_right xs ys i d
    where
      shift : suc (length xs) + i ≡ suc (length xs + i)
      shift = omega arith

  -- A write to an index of an array; it faults outside.
  pub write_at : List A → ℕ → A → Option (List A)
  write_at [] i a = none
  write_at (x ∷ xs) zero a = some (a ∷ xs)
  write_at (x ∷ xs) (suc i) a = write_at xs i a >>= λ ys. some (x ∷ ys)

  pub write_at-middle :
      (pre : List A) (x a : A) (post : List A) (i : ℕ)
      → i ≡ length pre
      → write_at (pre ++ (x ∷ post)) i a ≡ some (pre ++ (a ∷ post))
  unfolding write_at
  write_at-middle [] x a post zero e = refl
  write_at-middle [] x a post (suc i) e = absurd (omega arith)
  write_at-middle (y ∷ pre) x a post zero e = absurd (omega arith)
  write_at-middle (y ∷ pre) x a post (suc i) e = rw (write_at-middle pre x a post i (omega arith))

pub write_at-zero {ℓ} :
    {A : Type ℓ} (x : A) (xs : List A) (a : A) → write_at (x ∷ xs) zero a ≡ some (a ∷ xs)
unfolding write_at
write_at-zero x xs a = refl

pub write_at-suc {ℓ} :
    {A : Type ℓ} (x : A) (xs ys : List A) (i : ℕ) (a : A)
    → write_at xs i a ≡ some ys
    → write_at (x ∷ xs) (suc i) a ≡ some (x ∷ ys)
unfolding write_at
write_at-suc x xs ys i a h = rw h refl

abbrev pub get_elem? {ℓ} : {A : Type ℓ} → List A → ℕ → Option A
get_elem? [] i = none
get_elem? (x ∷ xs) zero = some x
get_elem? (x ∷ xs) (suc i) = get_elem? xs i

-- A write to an entry that is there.
pub write_at-get_elem? {ℓ} :
    {A : Type ℓ} (xs : List A) (i : ℕ) (x a : A)
    → get_elem? xs i ≡ some x
    → (ys : List A) × (write_at xs i a ≡ some ys)
      × (get_elem? ys i ≡ some a)
      × ((j : ℕ) → (i == j) ≡ false → get_elem? ys j ≡ get_elem? xs j)
unfolding write_at
write_at-get_elem? [] i x a h = cc
write_at-get_elem? {A = A} (y ∷ xs) zero x a h = (a ∷ xs, refl, refl, others)
  where
    others : (j : ℕ) → (0 == j) ≡ false → get_elem? (a ∷ xs) j ≡ get_elem? (y ∷ xs) j
    others zero d = cc
    others (suc j) d = refl
write_at-get_elem? {A = A} (y ∷ xs) (suc i) x a h =
    let (ys, wrote, here, there) = write_at-get_elem? xs i x a h in
    (y ∷ ys, rw wrote refl, here, others ys there)
  where
    others :
        (ys : List A)
        → ((j : ℕ) → (i == j) ≡ false → get_elem? ys j ≡ get_elem? xs j)
        → (j : ℕ) → (suc i == j) ≡ false
        → get_elem? (y ∷ ys) j ≡ get_elem? (y ∷ xs) j
    others ys there zero d = refl
    others ys there (suc j) d = there j (ground arith)

pub All-get_elem? {ℓ κ} :
    {A : Type ℓ} (P : A → Type κ) (xs : List A) (i : ℕ) (x : A)
    → All P xs
    → get_elem? xs i ≡ some x
    → P x
All-get_elem? P [] i x h e = absurd cc
All-get_elem? P (y ∷ xs) zero x (h, hs) e = subst P (some-injective y x e) h
All-get_elem? P (y ∷ xs) (suc i) x (h, hs) e = All-get_elem? P xs i x hs e
